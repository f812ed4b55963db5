-- ===== src/Orphans/Retries.antt =====
-- The bound on the retries of `recover_dorothy_orphan` of runtime/core/orphan_guard.py.
use pecunator_accu_monetas.Prelude.{
  ℕ, ◌+◌, ◌-◌, ◌≤◌, ◌<◌, ◌≡◌, ◌⊎◌, inl, inr, Option-cases, Bool, true, false, List, arith, length,
}
use pecunator_accu_monetas.Prelude.Frac.{Frac}
use pecunator_accu_monetas.Prelude.Codes.{find-put_self}
use pecunator_accu_monetas.Orphans.Recovery.{
  Config, Answers, Guard, Action, count_of, put_count, send, place, estimate,
  recover_dorothy_orphan,
}

count_of-put_count : (k : List ℕ) (n : ℕ) (d : List (List ℕ × ℕ)) → count_of k (put_count k n d) ≡ n
unfolding count_of put_count
count_of-put_count k n d = rw (find-put_self k n d)

abbrev pub is_recovered : Action → Bool
is_recovered (Action.recovered o) = true
is_recovered _ = false

place_counts :
    (symbol : List ℕ) (free : Frac) (config : Config) (a : Answers) (attempts : ℕ) (price : Frac)
    (g : Guard)
    → let (g', action) = place symbol free config a attempts price g in
      is_recovered action ≡ false
      → (count_of symbol g'.retry_counts ≡ attempts + 1) × (length g'.sent ≤ length g.sent + 1)
unfolding place send
place_counts symbol free config a attempts price g h =
    let counted = count_of-put_count symbol (attempts + 1) g.retry_counts in ground arith

-- A recovery that does not succeed leaves an exhausted guard as it is; otherwise it counts one more
-- attempt and sends at most one order.
recovery_counts :
    (symbol : List ℕ) (free : Frac) (config : Config) (a : Answers) (g : Guard)
    → let (g', action) = recover_dorothy_orphan symbol free config a g in
      let k = count_of symbol g.retry_counts in
      is_recovered action ≡ false
      → ((3 ≤ k) × (g' ≡ g))
        ⊎ ((k < 3)
            × (count_of symbol g'.retry_counts ≡ k + 1)
            × (length g'.sent ≤ length g.sent + 1))
unfolding recover_dorothy_orphan
recovery_counts symbol free config a g h =
    let k = count_of symbol g.retry_counts in
    let counted = count_of-put_count symbol (k + 1) g.retry_counts in
    elim (Option-cases (estimate a)) [
      | inl n ↦ ground arith
      | inr (price, n) ↦ ground (arith, place_counts symbol free config a k price g)
    ]

-- A run of recoveries of a symbol of which none succeeds.
pub data Failing (symbol : List ℕ) (g : Guard) : Guard → Type 0 where
  start : Failing symbol g g
  again :
      {h : Guard} (free : Frac) (config : Config) (a : Answers)
      → Failing symbol g h
      → is_recovered (recover_dorothy_orphan symbol free config a h).1 ≡ false
      → Failing symbol g (recover_dorothy_orphan symbol free config a h).0

-- What is left of the attempts.
abbrev left : List ℕ → Guard → ℕ
left symbol g = 3 - count_of symbol g.retry_counts

Failing-sent :
    {symbol : List ℕ} {g h : Guard}
    → Failing symbol g h
    → length h.sent + left symbol h ≤ length g.sent + left symbol g
Failing-sent start = omega arith
Failing-sent {symbol} {g} (again {h} free config a run failed) =
    let before = Failing-sent run in
    elim (recovery_counts symbol free config a h failed) [
      | inl (full, same) ↦ rw (same) before
      | inr (room, counted, sent) ↦ omega (arith, counted, sent, before)
    ]

-- However often the recovery of a symbol fails, and whatever the client answers, at most 3 orders are
-- sent for it until a recovery succeeds, and none if 3 attempts were counted before.
pub recovery_bound :
    (symbol : List ℕ) (g h : Guard)
    → Failing symbol g h
    → length h.sent ≤ length g.sent + (3 - count_of symbol g.retry_counts)
recovery_bound symbol g h run = omega (arith, Failing-sent run)
