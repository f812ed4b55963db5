-- ===== src/Prelude/Codes.antt =====
-- Texts as lists of code points, and Python dicts keyed by them.
use Prim.Native.Nat.{ℕ, ◌-◌}
use mathlib.Core.Path.{◌≡◌, refl, sym, ap, ◌∙◌}
use mathlib.Core.Logic.{inl, inr}
use mathlib.Core.Bool.{Bool, true, false, ◌&&◌}
use mathlib.Core.Option.{Option, none, some}
use mathlib.Core.List.{List, [], ◌∷◌}
use native.Mathlib.Omega.{arith}
use pecunator_accu_monetas.Prelude.Tests.{if◌then◌else◌, leb, ◌==◌, Bool-cases}

-- `a == b` on texts.
unfoldable pub same_codes : List ℕ → List ℕ → Bool
same_codes [] [] = true
same_codes [] (d ∷ ds) = false
same_codes (c ∷ cs) [] = false
same_codes (c ∷ cs) (d ∷ ds) = c == d && same_codes cs ds

-- `upper()`, on ASCII.
unfoldable pub upper : ℕ → ℕ
upper c = if leb b'a' c && leb c b'z' then c - 32 else c

pub same_codes_refl : (s : List ℕ) → same_codes s s ≡ true
unfolding same_codes
same_codes_refl [] = refl
same_codes_refl (c ∷ cs) = ground (arith, same_codes_refl cs)

pub same_codes_eq : (s t : List ℕ) → same_codes s t ≡ true → s ≡ t
unfolding same_codes
same_codes_eq [] [] h = refl
same_codes_eq [] (d ∷ ds) h = cc
same_codes_eq (c ∷ cs) [] h = cc
same_codes_eq (c ∷ cs) (d ∷ ds) h = ground (arith, same_codes_eq cs ds)

module _ {ℓ} {V : Type ℓ} where
  -- `d.get(k)`
  unfoldable pub find : List ℕ → List (List ℕ × V) → Option V
  find k [] = none
  find k ((j, v) ∷ d) = if same_codes j k then some v else find k d

  -- `d[k] = v`
  unfoldable pub put : List ℕ → V → List (List ℕ × V) → List (List ℕ × V)
  put k v [] = (k, v) ∷ []
  put k v ((j, w) ∷ d) =
      let rest = put k v d in if same_codes j k then (k, v) ∷ d else (j, w) ∷ rest

  -- `d.pop(k, None)`, over keys that are distinct.
  unfoldable pub drop : List ℕ → List (List ℕ × V) → List (List ℕ × V)
  drop k [] = []
  drop k ((j, w) ∷ d) = let rest = drop k d in if same_codes j k then rest else (j, w) ∷ rest

  pub find-put_self : (k : List ℕ) (v : V) (d : List (List ℕ × V)) → find k (put k v d) ≡ some v
  unfolding find put
  find-put_self k v [] = ground (arith, same_codes_refl k)
  find-put_self k v ((j, w) ∷ d) = ground (arith, same_codes_refl k, find-put_self k v d)

  pub find-put_other :
      (k j : List ℕ) (v : V) (d : List (List ℕ × V))
      → same_codes k j ≡ false
      → find j (put k v d) ≡ find j d
  unfolding find put
  find-put_other k j v [] h = ground arith
  find-put_other k j v ((i, w) ∷ d) h =
      ground (arith, same_codes_eq i k, same_codes_eq i j, find-put_other k j v d h)

  -- An entry that is written, at any key.
  pub find-put :
      (k j : List ℕ) (v : V) (d : List (List ℕ × V))
      → find j (put k v d) ≡ (if same_codes k j then some v else find j d)
  find-put k j v d = elim (Bool-cases (same_codes k j)) [
    | inl e ↦ rw e (ap (λ i. find i (put k v d)) (sym (same_codes_eq k j e)) ∙ find-put_self k v d)
    | inr e ↦ rw e (find-put_other k j v d e)
  ]

  pub find-drop_self : (k : List ℕ) (d : List (List ℕ × V)) → find k (drop k d) ≡ none
  unfolding find drop
  find-drop_self k [] = refl
  find-drop_self k ((j, w) ∷ d) = ground (arith, find-drop_self k d)

  pub find-drop_other :
      (k j : List ℕ) (d : List (List ℕ × V)) → same_codes k j ≡ false → find j (drop k d) ≡ find j d
  unfolding find drop
  find-drop_other k j [] h = refl
  find-drop_other k j ((i, w) ∷ d) h =
      ground (arith, same_codes_eq i k, same_codes_eq i j, find-drop_other k j d h)
