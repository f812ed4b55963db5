-- ===== src/MarketCache/Eviction.antt =====
-- The second phase of the eviction of runtime/core/market_cache.py ends within the budget.
use pecunator_accu_monetas.Prelude.{
  ℕ, ◌+◌, ◌-◌, ◌≤◌, ◌≡◌, refl, sym, ◌∙◌, false, not, none, some, List, [], ◌∷◌, arith, Bool-cases,
  inl, inr, keep_if, All,
}
use pecunator_accu_monetas.Prelude.Codes.{
  same_codes, same_codes_eq, same_codes_refl, find, drop, find-drop_other,
}
use pecunator_accu_monetas.MarketCache.State.{
  Entry, Cache, is_expired, total_size, evict_expired, insert_by_age, sorted_by_age, evict_oldest,
  evict_if_needed,
}
use pecunator_accu_monetas.MarketCache.Keys.{IsKeyed, sum_of-drop_le, drop-IsKeyed, keep_if-IsKeyed}

differ_sym : (j k : List ℕ) → same_codes j k ≡ false → same_codes k j ≡ false
differ_sym j k h = ground (arith, same_codes_eq k j, same_codes_refl k)

module _ {A : Type 0} where
  -- Every listed entry is the one that a dictionary has under its key.
  abbrev pub AllIn : List (List ℕ × Entry A) → List (List ℕ × Entry A) → Type 0
  AllIn d = All (λ x. find x.0 d ≡ some x.1)

  -- Keys that differ from one, and keys that all differ.
  abbrev pub AllOther : List ℕ → List (List ℕ × Entry A) → Type 0
  AllOther k = All (λ x. same_codes k x.0 ≡ false)

  abbrev pub AllDiffer : List (List ℕ × Entry A) → Type 0
  AllDiffer [] = Unit
  AllDiffer (x ∷ xs) = AllOther x.0 xs × AllDiffer xs

  All-insert_by_age :
      (P : List ℕ × Entry A → Type 0) (x : List ℕ × Entry A) (ys : List (List ℕ × Entry A))
      → P x
      → All P ys
      → All P (insert_by_age x ys)
  unfolding insert_by_age
  All-insert_by_age P x [] p all = (p, tt)
  All-insert_by_age P x (y ∷ ys) p (q, all) =
      let rest = All-insert_by_age P x ys p all in ground arith

  All-sorted_by_age :
      (P : List ℕ × Entry A → Type 0) (xs : List (List ℕ × Entry A))
      → All P xs
      → All P (sorted_by_age xs)
  unfolding sorted_by_age
  All-sorted_by_age P [] all = tt
  All-sorted_by_age P (x ∷ xs) (p, all) =
      All-insert_by_age P x (sorted_by_age xs) p (All-sorted_by_age P xs all)

  AllDiffer-insert_by_age :
      (x : List ℕ × Entry A) (ys : List (List ℕ × Entry A))
      → AllOther x.0 ys
      → AllDiffer ys
      → AllDiffer (insert_by_age x ys)
  unfolding insert_by_age
  AllDiffer-insert_by_age x [] other differ = (tt, tt)
  AllDiffer-insert_by_age x (y ∷ ys) (apart, other) (others, differ) =
      let rest = AllDiffer-insert_by_age x ys other differ in
      let back =
        All-insert_by_age (λ z. same_codes y.0 z.0 ≡ false) x ys (differ_sym x.0 y.0 apart)
          others in
      ground arith

  AllDiffer-sorted_by_age :
      (xs : List (List ℕ × Entry A)) → AllDiffer xs → AllDiffer (sorted_by_age xs)
  unfolding sorted_by_age
  AllDiffer-sorted_by_age [] differ = tt
  AllDiffer-sorted_by_age (x ∷ xs) (other, differ) =
      AllDiffer-insert_by_age x (sorted_by_age xs)
        (All-sorted_by_age (λ z. same_codes x.0 z.0 ≡ false) xs other)
        (AllDiffer-sorted_by_age xs differ)

  total_size-insert_by_age :
      (x : List ℕ × Entry A) (ys : List (List ℕ × Entry A))
      → total_size (insert_by_age x ys) ≡ x.1.size_bytes + total_size ys
  unfolding insert_by_age
  total_size-insert_by_age x [] = refl
  total_size-insert_by_age x (y ∷ ys) = ground (arith, total_size-insert_by_age x ys)

  total_size-sorted_by_age :
      (xs : List (List ℕ × Entry A)) → total_size (sorted_by_age xs) ≡ total_size xs
  unfolding sorted_by_age
  total_size-sorted_by_age [] = refl
  total_size-sorted_by_age (x ∷ xs) =
      omega (arith, total_size-insert_by_age x (sorted_by_age xs), total_size-sorted_by_age xs)

  -- Keys of which each has one entry differ, and each entry is found.
  other_of_keyed : (k : List ℕ) (d : List (List ℕ × Entry A)) → find k d ≡ none → AllOther k d
  unfolding find
  other_of_keyed k [] h = tt
  other_of_keyed k ((j, e) ∷ d) h = elim (Bool-cases (same_codes j k)) [
    | inl same ↦ absurd (ground (arith, same))
    | inr apart ↦ (differ_sym j k apart, other_of_keyed k d (ground arith))
  ]

  differ_of_keyed : (d : List (List ℕ × Entry A)) → IsKeyed d → AllDiffer d
  differ_of_keyed [] keyed = tt
  differ_of_keyed ((k, e) ∷ d) (apart, keyed) = (other_of_keyed k d apart, differ_of_keyed d keyed)

  AllIn-more :
      (k : List ℕ) (e : Entry A) (d xs : List (List ℕ × Entry A))
      → AllOther k xs
      → AllIn d xs
      → AllIn ((k, e) ∷ d) xs
  unfolding find
  AllIn-more k e d [] other found = tt
  AllIn-more k e d (x ∷ xs) (apart, other) (here, found) =
      (rw (apart) here, AllIn-more k e d xs other found)

  AllIn-itself : (d : List (List ℕ × Entry A)) → IsKeyed d → AllIn d d
  unfolding find
  AllIn-itself [] keyed = tt
  AllIn-itself ((k, e) ∷ d) (apart, keyed) = (
    rw (same_codes_refl k) refl,
    AllIn-more k e d d (other_of_keyed k d apart) (AllIn-itself d keyed),
  )

  AllIn-drop :
      (k : List ℕ) (d xs : List (List ℕ × Entry A))
      → AllOther k xs
      → AllIn d xs
      → AllIn (drop k d) xs
  AllIn-drop k d [] other found = tt
  AllIn-drop k d (x ∷ xs) (apart, other) (here, found) =
      (find-drop_other k x.0 d apart ∙ here, AllIn-drop k d xs other found)

  -- The loop over entries that the cache has, with the total of their sizes.
  evict_oldest_within :
      (es : List (List ℕ × Entry A)) (total : ℕ) (c : Cache A)
      → AllDiffer es
      → AllIn c.entries es
      → total ≡ total_size es
      → total_size c.entries ≤ total
      → total_size (evict_oldest es total c).entries ≤ c.max_memory
  unfolding evict_oldest
  evict_oldest_within [] total c differ found sum bound = omega (arith, sum, bound)
  evict_oldest_within ((k, e) ∷ es) total c (other, differ) (here, found) sum bound =
      let gone = sum_of-drop_le (λ x. x.size_bytes) k e c.entries here in
      let rest =
        evict_oldest_within es (total - e.size_bytes)
          (record c { entries = drop k c.entries; locks = drop k c.locks }) differ
          (AllIn-drop k c.entries es other found) (omega (arith, sum))
          (omega (arith, gone, bound)) in
      ground arith

  All-drop :
      (P : List ℕ × Entry A → Type 0) (k : List ℕ) (d : List (List ℕ × Entry A))
      → All P d
      → All P (drop k d)
  unfolding drop
  All-drop P k [] all = tt
  All-drop P k ((j, e) ∷ d) (here, all) = let rest = All-drop P k d all in ground arith

  live_unexpired :
      (now : ℕ) (d : List (List ℕ × Entry A))
      → All (λ x. is_expired now x.1 ≡ false) (keep_if (λ x. not (is_expired now x.1)) d)
  live_unexpired now [] = tt
  live_unexpired now (x ∷ d) = let rest = live_unexpired now d in ground arith

  evict_oldest_keeps :
      (es : List (List ℕ × Entry A)) (total : ℕ) (c : Cache A) (P : List ℕ × Entry A → Type 0)
      → All P c.entries
      → IsKeyed c.entries
      → All P (evict_oldest es total c).entries × IsKeyed (evict_oldest es total c).entries
  unfolding evict_oldest
  evict_oldest_keeps [] total c P all keyed = (all, keyed)
  evict_oldest_keeps ((k, e) ∷ es) total c P all keyed =
      let rest =
        evict_oldest_keeps es (total - e.size_bytes)
          (record c { entries = drop k c.entries; locks = drop k c.locks }) P
          (All-drop P k c.entries all) (drop-IsKeyed k c.entries keyed) in
      ground arith

  -- Over a cache with one entry for each key, the eviction ends within the budget and leaves no expired
  -- entry and still one entry for each key.
  pub evict_if_needed_within :
      (now : ℕ) (c : Cache A)
      → IsKeyed c.entries
      → let c' = evict_if_needed now c in
        (total_size c'.entries ≤ c.max_memory)
        × All (λ x. is_expired now x.1 ≡ false) c'.entries
        × IsKeyed c'.entries
  unfolding evict_if_needed evict_expired
  evict_if_needed_within now c keyed =
      let live = keep_if (λ x. not (is_expired now x.1)) c.entries in
      let c' = evict_expired now c in
      let live_keyed : IsKeyed live =
        keep_if-IsKeyed (λ x. not (is_expired now x.1)) c.entries keyed in
      let sum : total_size live ≡ total_size (sorted_by_age live) =
        sym (total_size-sorted_by_age live) in
      let within =
        evict_oldest_within (sorted_by_age live) (total_size live) c'
          (AllDiffer-sorted_by_age live (differ_of_keyed live live_keyed))
          (All-sorted_by_age (λ x. find x.0 live ≡ some x.1) live (AllIn-itself live live_keyed))
          sum (omega arith) in
      let (fresh, keyed') =
        evict_oldest_keeps (sorted_by_age live) (total_size live) c'
          (λ x. is_expired now x.1 ≡ false) (live_unexpired now c.entries) live_keyed in
      (within, fresh, keyed')
