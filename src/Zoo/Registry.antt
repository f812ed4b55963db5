-- ===== src/Zoo/Registry.antt =====
-- `ExceptionZoo` of runtime/core/exception_zoo.py: its table and the set of the fingerprints it knows. Texts
-- are lists of code points; a clock is a number. The digest of `hashlib` is an argument.
use pecunator_accu_monetas.Prelude.{
  ℕ, ◌+◌, Bool, true, false, ◌||◌, Option, none, some, List, [], ◌∷◌, ◌++◌, map, length, keep_if,
  sum_of, not, if◌then◌else◌,
}
use pecunator_accu_monetas.Prelude.Codes.{same_codes, find, put}
use pecunator_accu_monetas.Prelude.Slices.{first_of, last_n}

pub record Entry : Type 0 where
  pub exception_type : List ℕ
  pub message : List ℕ
  pub origin : List ℕ
  pub traceback_text : List ℕ
  pub first_seen : ℕ
  pub last_seen : ℕ
  pub hit_count : ℕ
  pub resolved : Bool
  pub notes : List ℕ

-- The table by its unique fingerprint, and `_known`.
pub record Zoo : Type 0 where
  pub table : List (List ℕ × Entry)
  pub known : List (List ℕ)

-- What an exception is registered with.
pub record Report : Type 0 where
  pub kind : List ℕ
  pub text : List ℕ
  pub origin : List ℕ
  pub context : List ℕ
  pub traceback_text : List ℕ

-- How the database takes a call: its statement fails, its commit fails, or it is written.
pub data Database : Type 0 where
  statement_fails commit_fails writes : Database

-- `_init_schema`, over the table of earlier runs.
unfoldable pub init : List (List ℕ × Entry) → Zoo
init table = record { table = table; known = map (λ row. row.0) table }

-- `_fingerprint`
unfoldable pub fingerprint : (List ℕ → List ℕ) → Report → List ℕ
fingerprint digest r =
    first_of 16 (digest (r.kind ++ b':' ∷ r.origin ++ b':' ∷ first_of 200 r.text))

-- `fp in self._known`
unfoldable pub is_known : List ℕ → List (List ℕ) → Bool
is_known fp [] = false
is_known fp (k ∷ ks) = same_codes k fp || is_known fp ks

abbrev pub new_entry : Report → ℕ → Entry
new_entry r now = record {
  exception_type = r.kind;
  message = first_of 500 r.text;
  origin = first_of 60 r.origin;
  traceback_text = last_n 2000 r.traceback_text;
  first_seen = now;
  last_seen = now;
  hit_count = 1;
  resolved = false;
  notes = first_of 500 r.context;
}

-- `INSERT OR IGNORE`
unfoldable pub insert_new : List ℕ → Entry → List (List ℕ × Entry) → List (List ℕ × Entry)
insert_new fp e table = elim (find fp table) [ none ↦ put fp e table | some old ↦ table ]

-- `UPDATE … SET last_seen_utc = ?, hit_count = hit_count + 1`
unfoldable pub count_hit : List ℕ → ℕ → List (List ℕ × Entry) → List (List ℕ × Entry)
count_hit fp now table = elim (find fp table) [
  | none ↦ table
  | some e ↦ put fp (record e { last_seen = now; hit_count = e.hit_count + 1 }) table
]

-- A novel exception; the fingerprint is known before the commit.
unfoldable pub register_novel : Database → List ℕ → Report → ℕ → Zoo → Zoo
register_novel Database.statement_fails fp r now z = z
register_novel Database.commit_fails fp r now z = record z { known = fp ∷ z.known }
register_novel Database.writes fp r now z = record {
  table = insert_new fp (new_entry r now) z.table;
  known = fp ∷ z.known;
}

unfoldable pub register_again : Database → List ℕ → ℕ → Zoo → Zoo
register_again Database.statement_fails fp now z = z
register_again Database.commit_fails fp now z = z
register_again Database.writes fp now z = record z { table = count_hit fp now z.table }

abbrev pub answer : {A : Type 0} → Database → A → Option A
answer Database.writes a = some a
answer Database.statement_fails a = none
answer Database.commit_fails a = none

-- `register`; its answer is `none` where the database raises.
unfoldable pub register :
    (List ℕ → List ℕ) → Database → Report → ℕ → Zoo → Zoo × Option (List ℕ × Bool)
register digest db r now z =
    let fp = fingerprint digest r in
    let novel = not (is_known fp z.known) in
    (
      if novel then register_novel db fp r now z else register_again db fp now z,
      answer db (fp, novel),
    )

abbrev pub resolved_entry : List ℕ → Entry → Entry
resolved_entry notes e = record e { resolved = true; notes = first_of 500 notes }

-- `mark_resolved`
unfoldable pub mark_resolved : List ℕ → List ℕ → Zoo → Zoo × Bool
mark_resolved fp notes z = elim (find fp z.table) [
  | none ↦ (z, false)
  | some e ↦ (record z { table = put fp (resolved_entry notes e) z.table }, true)
]

pub record Totals : Type 0 where
  pub unique_exceptions : ℕ
  pub unresolved : ℕ
  pub total_occurrences : ℕ

-- `summary`
unfoldable pub summary : Zoo → Totals
summary z = record {
  unique_exceptions = length z.table;
  unresolved = length (keep_if (λ row. not row.1.resolved) z.table);
  total_occurrences = sum_of (λ row. row.1.hit_count) z.table;
}
