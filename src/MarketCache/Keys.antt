-- ===== src/MarketCache/Keys.antt =====
-- Dictionaries with one entry for each key, and what the eviction of runtime/core/market_cache.py keeps of
-- them.
use pecunator_accu_monetas.Prelude.{
  ℕ, ◌+◌, ◌≤◌, ◌≡◌, refl, sym, ◌∙◌, Bool, false, none, some, List, [], ◌∷◌, arith, Bool-cases, inl,
  inr, keep_if, sum_of,
}
use pecunator_accu_monetas.Prelude.Codes.{
  same_codes, same_codes_eq, same_codes_refl, find, put, drop, find-put_other,
}

module _ {ℓ} {V : Type ℓ} where
  abbrev pub IsKeyed : List (List ℕ × V) → Type ℓ
  IsKeyed [] = Unit
  IsKeyed ((k, v) ∷ d) = (find k d ≡ none) × IsKeyed d

  pub find-drop-none :
      (j k : List ℕ) (d : List (List ℕ × V)) → find j d ≡ none → find j (drop k d) ≡ none
  unfolding find drop
  find-drop-none j k [] h = refl
  find-drop-none j k ((i, v) ∷ d) h = ground (arith, find-drop-none j k d)

  pub find-put-none :
      (j k : List ℕ) (v : V) (d : List (List ℕ × V))
      → find j d ≡ none
      → same_codes k j ≡ false
      → find j (put k v d) ≡ none
  find-put-none j k v d h apart = find-put_other k j v d apart ∙ h

  pub find-keep_if-none :
      (keep : List ℕ × V → Bool) (j : List ℕ) (d : List (List ℕ × V))
      → find j d ≡ none
      → find j (keep_if keep d) ≡ none
  unfolding find
  find-keep_if-none keep j [] h = refl
  find-keep_if-none keep j ((i, v) ∷ d) h = ground (arith, find-keep_if-none keep j d)

  pub put-IsKeyed : (k : List ℕ) (v : V) (d : List (List ℕ × V)) → IsKeyed d → IsKeyed (put k v d)
  unfolding put find
  put-IsKeyed k v [] h = (refl, tt)
  put-IsKeyed k v ((j, w) ∷ d) (apart, keyed) = elim (Bool-cases (same_codes j k)) [
    | inl e ↦
        let same : j ≡ k = same_codes_eq j k e in
        let apart' : find k d ≡ none = rw (sym same) apart in rw (e) (apart', keyed)
    | inr e ↦
        let e' : same_codes k j ≡ false = ground (arith, same_codes_eq k j, same_codes_refl j) in
        rw (e) (find-put-none j k v d apart e', put-IsKeyed k v d keyed)
  ]

  pub drop-IsKeyed : (k : List ℕ) (d : List (List ℕ × V)) → IsKeyed d → IsKeyed (drop k d)
  unfolding drop
  drop-IsKeyed k [] h = tt
  drop-IsKeyed k ((j, w) ∷ d) (apart, keyed) =
      let rest = drop-IsKeyed k d keyed in let apart' = find-drop-none j k d apart in ground arith

  pub keep_if-IsKeyed :
      (keep : List ℕ × V → Bool) (d : List (List ℕ × V)) → IsKeyed d → IsKeyed (keep_if keep d)
  keep_if-IsKeyed keep [] h = tt
  keep_if-IsKeyed keep ((j, w) ∷ d) (apart, keyed) =
      let rest = keep_if-IsKeyed keep d keyed in
      let apart' = find-keep_if-none keep j d apart in ground arith

  -- What the values weigh does not grow.
  sum_of-drop_weak :
      (size : V → ℕ) (k : List ℕ) (d : List (List ℕ × V))
      → sum_of (λ e. size e.1) (drop k d) ≤ sum_of (λ e. size e.1) d
  unfolding drop
  sum_of-drop_weak size k [] = omega arith
  sum_of-drop_weak size k ((j, w) ∷ d) = ground (arith, sum_of-drop_weak size k d)

  -- What a key's value weighs is gone with it.
  pub sum_of-drop_le :
      (size : V → ℕ) (k : List ℕ) (v : V) (d : List (List ℕ × V))
      → find k d ≡ some v
      → sum_of (λ e. size e.1) (drop k d) + size v ≤ sum_of (λ e. size e.1) d
  unfolding find drop
  sum_of-drop_le size k v [] h = cc
  sum_of-drop_le size k v ((j, w) ∷ d) h =
      ground (arith, sum_of-drop_weak size k d, sum_of-drop_le size k v d)
