-- ===== src/Prelude/Slices.antt =====
-- Slices of lists: `xs[k:]`, `xs[-n:]` and `reversed(xs)`, measured by the native numbers.
use Prim.Native.Nat.{ℕ, zero, suc, ◌+◌, ◌-◌, ◌≤◌, ◌<◌}
use mathlib.Core.Path.{◌≡◌, refl, ap, sym, ◌∙◌}
use mathlib.Core.List.{List, [], ◌∷◌, ◌++◌}
use native.Mathlib.Omega.{arith}
use pecunator_accu_monetas.Prelude.Lists.{length}

module _ {ℓ} {A : Type ℓ} where
  -- `xs[k:]`
  unfoldable pub skip : ℕ → List A → List A
  skip zero xs = xs
  skip (suc n) [] = []
  skip (suc n) (x ∷ xs) = skip n xs

  -- `xs[-n:]`, for an `n` that is not 0.
  unfoldable pub last_n : ℕ → List A → List A
  last_n n xs = skip (length xs - n) xs

  -- `xs[:n]`
  abbrev pub first_of : ℕ → List A → List A
  first_of zero xs = []
  first_of (suc n) [] = []
  first_of (suc n) (x ∷ xs) = x ∷ first_of n xs

  -- `list(reversed(xs))`
  unfoldable pub reversed : List A → List A
  reversed [] = []
  reversed (x ∷ xs) = reversed xs ++ x ∷ []

module _ {ℓ} {A : Type ℓ} where
  length-append_one : (xs : List A) (x : A) → length (xs ++ x ∷ []) ≡ length xs + 1
  length-append_one [] x = refl
  length-append_one (y ∷ xs) x = omega (arith, length-append_one xs x)

  length-skip : (n : ℕ) (xs : List A) → length (skip n xs) ≡ length xs - n
  unfolding skip
  length-skip zero xs = omega arith
  length-skip (suc n) [] = omega arith
  length-skip (suc n) (x ∷ xs) = omega (arith, length-skip n xs)

  skip-append_one :
      (n : ℕ) (xs : List A) (x : A) → n ≤ length xs → skip n (xs ++ x ∷ []) ≡ skip n xs ++ x ∷ []
  unfolding skip
  skip-append_one zero xs x h = refl
  skip-append_one (suc n) [] x h = absurd (omega (arith, h))
  skip-append_one (suc n) (y ∷ xs) x h = skip-append_one n xs x (omega (arith, h))

  skip_nil : (n : ℕ) → skip {A = A} n [] ≡ []
  unfolding skip
  skip_nil zero = refl
  skip_nil (suc n) = refl

  skip-skip : (n m : ℕ) (xs : List A) → skip n (skip m xs) ≡ skip (m + n) xs
  unfolding skip
  skip-skip n zero xs = ap (λ k. skip k xs) (omega arith)
  skip-skip n (suc m) [] = skip_nil n ∙ sym (skip_nil (suc m + n))
  skip-skip n (suc m) (x ∷ xs) =
      let next : suc (m + n) ≡ suc m + n = omega arith in
      skip-skip n m xs ∙ ap (λ k. skip k (x ∷ xs)) next

  pub length-last_n : (n : ℕ) (xs : List A) → length (last_n n xs) ≡ length xs - (length xs - n)
  unfolding last_n
  length-last_n n xs = length-skip (length xs - n) xs

  -- The newest of the newest.
  pub last_n-last_n : (n m : ℕ) (xs : List A) → n ≤ m → last_n n (last_n m xs) ≡ last_n n xs
  unfolding last_n
  last_n-last_n n m xs h =
      let size = length-skip (length xs - m) xs in
      let sum : (length xs - m) + (length (skip (length xs - m) xs) - n) ≡ length xs - n =
        omega (arith, size, h) in
      skip-skip (length (skip (length xs - m) xs) - n) (length xs - m) xs ∙ ap (λ k. skip k xs) sum

  -- One more after the newest, cut again.
  pub last_n-append_one :
      (n : ℕ) (xs : List A) (x : A)
      → 0 < n
      → last_n n (last_n n xs ++ x ∷ []) ≡ last_n n (xs ++ x ∷ [])
  unfolding last_n
  last_n-append_one n xs x pos =
      let k = length xs - n in
      let within : skip k (xs ++ x ∷ []) ≡ skip k xs ++ x ∷ [] =
        skip-append_one k xs x (omega arith) in
      let size : length (skip k xs ++ x ∷ []) ≡ length xs - k + 1 =
        length-append_one (skip k xs) x ∙ ap (λ m. m + 1) (length-skip k xs) in
      let size' = length-append_one xs x in
      let sum : k + (length (skip k xs ++ x ∷ []) - n) ≡ length (xs ++ x ∷ []) - n =
        omega (arith, size, size', pos) in
      ap (skip (length (skip k xs ++ x ∷ []) - n)) (sym within)
      ∙ skip-skip (length (skip k xs ++ x ∷ []) - n) k (xs ++ x ∷ [])
      ∙ ap (λ m. skip m (xs ++ x ∷ [])) sum

  pub last_n-short : (n : ℕ) (xs : List A) → length xs ≤ n → last_n n xs ≡ xs
  unfolding last_n skip
  last_n-short n xs h =
      let none_skipped : length xs - n ≡ 0 = omega (arith, h) in ap (λ k. skip k xs) none_skipped
