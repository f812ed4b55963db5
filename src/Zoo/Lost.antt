-- ===== src/Zoo/Lost.antt =====
-- An exception of runtime/core/exception_zoo.py whose first commit fails.
use pecunator_accu_monetas.Prelude.{
  ℕ, ◌≡◌, refl, ap, ◌∙◌, subst⁻¹, Bool, true, false, not, Bool-cases, Option-cases, inl, inr, none,
  some, List, [], ◌∷◌, if◌then◌else◌, arith,
}
use pecunator_accu_monetas.Prelude.Codes.{
  same_codes, same_codes_eq, same_codes_refl, find, put, find-put,
}
use pecunator_accu_monetas.Zoo.Registry.{
  Entry, Zoo, Report, Database, fingerprint, is_known, new_entry, insert_new, count_hit,
  register_novel, register_again, register, mark_resolved, resolved_entry,
}
use pecunator_accu_monetas.Zoo.Hits.{find-insert_new, find-count_hit}

-- What may follow: registrations, however the database takes them, and rows that are marked.
pub data Event : Type 0 where
  registered : Database → Report → ℕ → Event
  resolved : List ℕ → List ℕ → Event

abbrev pub apply : (List ℕ → List ℕ) → Event → Zoo → Zoo
apply digest (Event.registered db r now) z = (register digest db r now z).0
apply digest (Event.resolved fp notes) z = (mark_resolved fp notes z).0

abbrev pub apply_all : (List ℕ → List ℕ) → List Event → Zoo → Zoo
apply_all digest [] z = z
apply_all digest (e ∷ es) z = apply_all digest es (apply digest e z)

-- The fingerprint is known and has no row.
abbrev pub IsLost : List ℕ → Zoo → Type 0
IsLost fp z = (is_known fp z.known ≡ true) × (find fp z.table ≡ none)

apart :
    (fp k : List ℕ) (z : Zoo) → IsLost fp z → is_known k z.known ≡ false → same_codes k fp ≡ false
apart fp k z (known, lost) h = elim (Bool-cases (same_codes k fp)) [
  | inl e ↦ let same = ap (λ i. is_known i z.known) (same_codes_eq k fp e) in absurd (ground arith)
  | inr e ↦ e
]

insert_new-lost :
    (fp k : List ℕ) (e : Entry) (table : List (List ℕ × Entry))
    → same_codes k fp ≡ false
    → find fp table ≡ none
    → find fp (insert_new k e table) ≡ none
unfolding insert_new
insert_new-lost fp k e table other lost = elim (Option-cases (find k table)) [
  | inl absent ↦ find-insert_new k fp e table absent ∙ rw (other, lost) refl
  | inr (old, found) ↦ rw (insert_new, found) lost
]

absent_apart :
    (fp k : List ℕ) (e : Entry) (table : List (List ℕ × Entry))
    → find fp table ≡ none
    → find k table ≡ some e
    → same_codes k fp ≡ false
absent_apart fp k e table lost found = elim (Bool-cases (same_codes k fp)) [
  | inl same ↦ let eq = ap (λ i. find i table) (same_codes_eq k fp same) in absurd (ground arith)
  | inr other ↦ other
]

count_hit-lost :
    (fp k : List ℕ) (now : ℕ) (table : List (List ℕ × Entry))
    → find fp table ≡ none
    → find fp (count_hit k now table) ≡ none
unfolding count_hit
count_hit-lost fp k now table lost = elim (Option-cases (find k table)) [
  | inl absent ↦ rw (count_hit, absent) lost
  | inr (old, found) ↦
      find-count_hit k fp now old table found
      ∙ rw (absent_apart fp k old table lost found, lost) refl
]

register_novel-IsLost :
    (db : Database) (fp k : List ℕ) (r : Report) (now : ℕ) (z : Zoo)
    → same_codes k fp ≡ false
    → IsLost fp z
    → IsLost fp (register_novel db k r now z)
unfolding register_novel is_known
register_novel-IsLost Database.statement_fails fp k r now z other lost = lost
register_novel-IsLost Database.commit_fails fp k r now z other (known, lost) =
    (rw (other) known, lost)
register_novel-IsLost Database.writes fp k r now z other (known, lost) =
    (rw (other) known, insert_new-lost fp k (new_entry r now) z.table other lost)

register_again-IsLost :
    (db : Database) (fp k : List ℕ) (now : ℕ) (z : Zoo)
    → IsLost fp z
    → IsLost fp (register_again db k now z)
unfolding register_again
register_again-IsLost Database.statement_fails fp k now z lost = lost
register_again-IsLost Database.commit_fails fp k now z lost = lost
register_again-IsLost Database.writes fp k now z (known, lost) =
    (known, count_hit-lost fp k now z.table lost)

apply-IsLost :
    (digest : List ℕ → List ℕ) (fp : List ℕ) (e : Event) (z : Zoo)
    → IsLost fp z
    → IsLost fp (apply digest e z)
unfolding register mark_resolved
apply-IsLost digest fp (Event.registered db r now) z lost =
    let k = fingerprint digest r in
    let leaves = λ (known : Bool).
      IsLost fp (if not known then register_novel db k r now z else register_again db k now z) in
    elim (Bool-cases (is_known k z.known)) [
      | inl seen ↦ subst⁻¹ leaves seen (register_again-IsLost db fp k now z lost)
      | inr novel ↦
          subst⁻¹ leaves novel
            (register_novel-IsLost db fp k r now z (apart fp k z lost novel) lost)
    ]
apply-IsLost digest fp (Event.resolved k notes) z (known, lost) =
    elim (Option-cases (find k z.table)) [
      | inl absent ↦
          let same : mark_resolved k notes z ≡ (z, false) = rw (mark_resolved, absent) refl in
          subst⁻¹ (λ p. IsLost fp p.0) same (known, lost)
      | inr (e, found) ↦
          let marked : mark_resolved k notes z
              ≡ (record z { table = put k (resolved_entry notes e) z.table }, true) =
            rw (mark_resolved, found) refl in
          let other = absent_apart fp k e z.table lost found in
          subst⁻¹ (λ p. IsLost fp p.0) marked
            (known, find-put k fp (resolved_entry notes e) z.table ∙ rw (other, lost) refl)
    ]

apply_all-IsLost :
    (digest : List ℕ → List ℕ) (fp : List ℕ) (es : List Event) (z : Zoo)
    → IsLost fp z
    → IsLost fp (apply_all digest es z)
apply_all-IsLost digest fp [] z lost = lost
apply_all-IsLost digest fp (e ∷ es) z lost =
    apply_all-IsLost digest fp es (apply digest e z) (apply-IsLost digest fp e z lost)

known_at_once :
    (fp : List ℕ) (r : Report) (now : ℕ) (z : Zoo)
    → is_known fp (register_novel Database.commit_fails fp r now z).known ≡ true
unfolding register_novel is_known
known_at_once fp r now z = rw (same_codes_refl fp) refl

-- A novel exception whose commit fails is lost: the call raises, and whatever is registered or marked
-- afterwards, the table never has a row of its fingerprint, and every further registration of
-- it that is written answers that it is not novel.
pub failed_commit_loses :
    (digest : List ℕ → List ℕ) (r : Report) (now : ℕ) (z : Zoo) (es : List Event) (later : ℕ)
    → let fp = fingerprint digest r in
      is_known fp z.known ≡ false
      → find fp z.table ≡ none
      → let failed = register digest Database.commit_fails r now z in
        let z' = apply_all digest es failed.0 in
        (failed.1 ≡ none)
        × (find fp z'.table ≡ none)
        × ((register digest Database.writes r later z').1 ≡ some (fp, false))
unfolding register register_novel
failed_commit_loses digest r now z es later novel absent =
    let fp = fingerprint digest r in
    let failed = (register digest Database.commit_fails r now z).0 in
    let first : IsLost fp failed =
      subst⁻¹
        (λ known. IsLost fp (
          if not known
          then register_novel Database.commit_fails fp r now z
          else register_again Database.commit_fails fp now z))
        novel (known_at_once fp r now z, absent) in
    let (known, lost) = apply_all-IsLost digest fp es failed first in
    (refl, lost, ap (λ k. some (fp, not k)) known)
