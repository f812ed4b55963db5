-- ===== src/Zoo/Hits.antt =====
-- The hits of runtime/core/exception_zoo.py against the exceptions that were registered.
use pecunator_accu_monetas.Prelude.{
  ℕ, ◌+◌, ◌≡◌, ◌≢◌, refl, subst⁻¹, ap, ◌∙◌, sym, Bool, true, false, not, Option-cases, inl, inr,
  Option, none, some, List, [], ◌∷◌, map, if◌then◌else◌, arith, Bool-cases,
}
use pecunator_accu_monetas.Prelude.Codes.{same_codes, same_codes_eq, find, put, find-put}
use pecunator_accu_monetas.Zoo.Registry.{
  Entry, Zoo, Report, Database, init, fingerprint, is_known, new_entry, insert_new, count_hit,
  register_novel, register_again, register,
}

-- A registration: how the database takes it, what is registered, and the clock.
pub record Call : Type 0 where
  pub database : Database
  pub report : Report
  pub now : ℕ

abbrev pub hits_of : Option Entry → ℕ
hits_of none = 0
hits_of (some e) = e.hit_count

-- The hits of a fingerprint.
abbrev pub hits : List ℕ → Zoo → ℕ
hits fp z = hits_of (find fp z.table)

abbrev pub is_some : Option Entry → Bool
is_some none = false
is_some (some e) = true

-- One more, if a call is written and has the fingerprint.
abbrev pub counted : Database → Bool → ℕ
counted Database.writes true = 1
counted Database.writes false = 0
counted Database.statement_fails same = 0
counted Database.commit_fails same = 0

-- The calls of a fingerprint that were written, the newest first.
abbrev pub written : (List ℕ → List ℕ) → List ℕ → List Call → ℕ
written digest fp [] = 0
written digest fp (c ∷ cs) =
    counted c.database (same_codes (fingerprint digest c.report) fp) + written digest fp cs

-- No commit fails.
abbrev pub Commits : List Call → Type 0
Commits [] = Unit
Commits (c ∷ cs) = (c.database ≢ Database.commit_fails) × Commits cs

-- The zoo that was opened on a table, after the calls.
abbrev pub run : (List ℕ → List ℕ) → List (List ℕ × Entry) → List Call → Zoo
run digest table [] = init table
run digest table (c ∷ cs) = (register digest c.database c.report c.now (run digest table cs)).0

-- The set of fingerprints is that of the table.
abbrev Agrees : Zoo → Type 0
Agrees z = (fp : List ℕ) → is_known fp z.known ≡ is_some (find fp z.table)

-- A new entry, at any fingerprint.
pub find-insert_new :
    (fp k : List ℕ) (e : Entry) (table : List (List ℕ × Entry))
    → find fp table ≡ none
    → find k (insert_new fp e table) ≡ (if same_codes fp k then some e else find k table)
unfolding insert_new
find-insert_new fp k e table h =
    let new : insert_new fp e table ≡ put fp e table = rw (insert_new, h) refl in
    ap (find k) new ∙ find-put fp k e table

pub find-count_hit :
    (fp k : List ℕ) (now : ℕ) (e : Entry) (table : List (List ℕ × Entry))
    → find fp table ≡ some e
    → find k (count_hit fp now table) ≡ (
        if same_codes fp k
        then some (record e { last_seen = now; hit_count = e.hit_count + 1 })
        else find k table)
unfolding count_hit
find-count_hit fp k now e table h =
    let e' : Entry = record e { last_seen = now; hit_count = e.hit_count + 1 } in
    let counted : count_hit fp now table ≡ put fp e' table = rw (count_hit, h) refl in
    ap (find k) counted ∙ find-put fp k e' table

found_same :
    (fp k : List ℕ) (o : Option Entry) (table : List (List ℕ × Entry))
    → find fp table ≡ o
    → same_codes fp k ≡ true
    → find k table ≡ o
found_same fp k o table h e = ap (λ i. find i table) (sym (same_codes_eq fp k e)) ∙ h

step_new :
    (fp : List ℕ) (r : Report) (now : ℕ) (z : Zoo)
    → Agrees z
    → find fp z.table ≡ none
    → let z' = register_novel Database.writes fp r now z in
      Agrees z' × ((k : List ℕ) → hits k z' ≡ counted Database.writes (same_codes fp k) + hits k z)
unfolding register_novel is_known
step_new fp r now z ag h = (
  λ k.
      let found = find-insert_new fp k (new_entry r now) z.table h in
      let same = ag k in ground arith,
  λ k.
      let found = find-insert_new fp k (new_entry r now) z.table h in
      let none_before = found_same fp k none z.table h in ground arith,
)

step_again :
    (fp : List ℕ) (now : ℕ) (e : Entry) (z : Zoo)
    → Agrees z
    → find fp z.table ≡ some e
    → let z' = register_again Database.writes fp now z in
      Agrees z' × ((k : List ℕ) → hits k z' ≡ counted Database.writes (same_codes fp k) + hits k z)
unfolding register_again
step_again fp now e z ag h = (
  λ k.
      let found = find-count_hit fp k now e z.table h in
      let before = found_same fp k (some e) z.table h in let same = ag k in ground arith,
  λ k.
      let found = find-count_hit fp k now e z.table h in
      let before = found_same fp k (some e) z.table h in ground arith,
)

-- What one call leaves, whose commit does not fail.
Steps : Database → List ℕ → Zoo → Zoo → Type 0
Steps db fp z z' = Agrees z' × ((k : List ℕ) → hits k z' ≡ counted db (same_codes fp k) + hits k z)

novel_step :
    (db : Database) (fp : List ℕ) (r : Report) (now : ℕ) (z : Zoo)
    → db ≢ Database.commit_fails
    → Agrees z
    → find fp z.table ≡ none
    → Steps db fp z (register_novel db fp r now z)
unfolding Steps register_novel
novel_step Database.statement_fails fp r now z ok ag h = (ag, λ k. omega arith)
novel_step Database.commit_fails fp r now z ok ag h = absurd (ok refl)
novel_step Database.writes fp r now z ok ag h = step_new fp r now z ag h

again_step :
    (db : Database) (fp : List ℕ) (now : ℕ) (e : Entry) (z : Zoo)
    → db ≢ Database.commit_fails
    → Agrees z
    → find fp z.table ≡ some e
    → Steps db fp z (register_again db fp now z)
unfolding Steps register_again
again_step Database.statement_fails fp now e z ok ag h = (ag, λ k. omega arith)
again_step Database.commit_fails fp now e z ok ag h = absurd (ok refl)
again_step Database.writes fp now e z ok ag h = step_again fp now e z ag h

register_step :
    (digest : List ℕ → List ℕ) (db : Database) (r : Report) (now : ℕ) (z : Zoo)
    → db ≢ Database.commit_fails
    → Agrees z
    → Steps db (fingerprint digest r) z (register digest db r now z).0
unfolding register
register_step digest db r now z ok ag =
    let fp = fingerprint digest r in
    let leaves = λ (novel : Bool).
      Steps db fp z (if novel then register_novel db fp r now z else register_again db fp now z) in
    elim (Option-cases (find fp z.table)) [
      | inl absent ↦
          let novel : not (is_known fp z.known) ≡ true = rw (ag fp, absent) refl in
          subst⁻¹ leaves novel (novel_step db fp r now z ok ag absent)
      | inr (e, found) ↦
          let seen : not (is_known fp z.known) ≡ false = rw (ag fp, found) refl in
          subst⁻¹ leaves seen (again_step db fp now e z ok ag found)
    ]

is_known-find :
    (fp : List ℕ) (table : List (List ℕ × Entry))
    → is_known fp (map (λ row. row.0) table) ≡ is_some (find fp table)
unfolding is_known find
is_known-find fp [] = refl
is_known-find fp ((k, e) ∷ table) = elim (Bool-cases (same_codes k fp)) [
  | inl same ↦ rw (same) refl
  | inr other ↦ rw (other) (is_known-find fp table)
]

module _ (digest : List ℕ → List ℕ) (table : List (List ℕ × Entry)) where
  run-Agrees : (cs : List Call) → Commits cs → Agrees (run digest table cs)
  unfolding init Steps
  run-Agrees [] ok = λ fp. is_known-find fp table
  run-Agrees (c ∷ cs) (ok, oks) =
      (register_step digest c.database c.report c.now (run digest table cs) ok
        (run-Agrees cs oks)).0

  run-hits :
      (fp : List ℕ) (cs : List Call)
      → Commits cs
      → hits fp (run digest table cs) ≡ written digest fp cs + hits_of (find fp table)
  unfolding init Steps
  run-hits fp [] ok = omega arith
  run-hits fp (c ∷ cs) (ok, oks) =
      let step =
        register_step digest c.database c.report c.now (run digest table cs) ok
          (run-Agrees cs oks) in
      omega (arith, step.1 fp, run-hits fp cs oks)

-- A zoo is opened on any table of earlier runs, and calls follow of which no commit fails. Then the
-- hits of a fingerprint are those that its row had at the opening and one more for each call with
-- this fingerprint that was written, and the next call that is written is reported as novel exactly
-- if the table has no row of its fingerprint; statements that fail count nothing.
pub hits_are_calls :
    (digest : List ℕ → List ℕ) (table : List (List ℕ × Entry)) (fp : List ℕ) (cs : List Call)
    (r : Report) (now : ℕ)
    → Commits cs
    → let z = run digest table cs in
      let next = fingerprint digest r in
      (hits fp z ≡ written digest fp cs + hits_of (find fp table))
      × ((register digest Database.writes r now z).1
          ≡ some (next, not (is_some (find next z.table))))
unfolding register
hits_are_calls digest table fp cs r now ok =
    let next = fingerprint digest r in
    (
      run-hits digest table fp cs ok,
      ap (λ known. some (next, not known)) (run-Agrees digest table cs ok next),
    )
