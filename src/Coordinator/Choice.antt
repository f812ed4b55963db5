-- ===== src/Coordinator/Choice.antt =====
-- The second that `_compute_optimal_delay` of runtime/core/bot_coordinator.py chooses.
use pecunator_accu_monetas.Prelude.{
  ℕ, zero, suc, ◌+◌, ◌-◌, ◌≤◌, ◌<◌, ◌≡◌, refl, ap, sym, ◌∙◌, length, ◌&&◌, ◌/◌, ◌%◌, ◌⊎◌, inl, inr,
  min, Bool, true, false, Option, none, some, List, [], ◌∷◌, arith, All, All-map, Bool-cases, leb,
  ltb, ◌==◌, if◌then◌else◌,
}
use pecunator_accu_monetas.Prelude.Dict.{Dict}
use pecunator_accu_monetas.Coordinator.State.{Coordinator, ActiveBot, StagedBot}
use pecunator_accu_monetas.Coordinator.Delay.{
  heat, mark_cycles, cycle_fuel, mark_active, mark_staged, zeros, heatmap, score_of,
  best_launch_second, is_staged, is_ahead, seconds_ahead, least, indices_of, quietest, best_of,
  best_second,
}

-- `hs[i]`
abbrev pub nth : ℕ → List ℕ → Option ℕ
nth i [] = none
nth zero (h ∷ hs) = some h
nth (suc i) (h ∷ hs) = nth i hs

least-le : (m : ℕ) (hs : List ℕ) → least m hs ≤ m
unfolding least
least-le m [] = omega arith
least-le m (h ∷ hs) = omega (arith, least-le (min m h) hs)

least_lower : (m j w : ℕ) (hs : List ℕ) → nth j hs ≡ some w → least m hs ≤ w
unfolding least
least_lower m j w [] h = cc
least_lower m zero w (x ∷ hs) h = ground (arith, least-le (min m x) hs)
least_lower m (suc j) w (x ∷ hs) h = least_lower (min m x) j w hs h

min_attained :
    (m h : ℕ) (hs : List ℕ) → (min m h ≡ m) ⊎ ((j : ℕ) × (nth j (h ∷ hs) ≡ some (min m h)))
min_attained m h hs = elim (Bool-cases (leb m h)) [
  | inl le ↦ inl (ground arith)
  | inr gt ↦ inr (0, ground arith)
]

-- The least value is the first one or stands in the list.
least_attained :
    (m : ℕ) (hs : List ℕ) → (least m hs ≡ m) ⊎ ((j : ℕ) × (nth j hs ≡ some (least m hs)))
unfolding least
least_attained m [] = inl refl
least_attained m (h ∷ hs) = elim (least_attained (min m h) hs) [
  | inl e ↦ rw (e) (min_attained m h hs)
  | inr (j, e) ↦ inr (suc j, e)
]

nth_later :
    (m i k h : ℕ) (hs : List ℕ)
    → (i + 1 ≤ k) × (nth (k - (i + 1)) hs ≡ some m)
    → (i ≤ k) × (nth (k - i) (h ∷ hs) ≡ some m)
nth_later m i k h hs (le, e) =
    let shift : k - i ≡ suc (k - (i + 1)) = omega arith in (omega arith, rw (shift) e)

nth_here : (m i h : ℕ) (hs : List ℕ) → (h == m) ≡ true → nth (i - i) (h ∷ hs) ≡ some m
nth_here m i h hs e =
    let zeroed : i - i ≡ 0 = omega arith in
    let same : h ≡ m = ground arith in rw (zeroed, same) refl

-- Every listed index has the value, counted from the start.
indices_of-nth :
    (m i : ℕ) (hs : List ℕ) → All (λ k. (i ≤ k) × (nth (k - i) hs ≡ some m)) (indices_of m i hs)
unfolding indices_of
indices_of-nth m i [] = tt
indices_of-nth m i (h ∷ hs) =
    let later =
      All-map _ (λ k. (i ≤ k) × (nth (k - i) (h ∷ hs) ≡ some m)) (indices_of m (i + 1) hs)
        (λ k p. nth_later m i k h hs p) (indices_of-nth m (i + 1) hs) in
    elim (Bool-cases (h == m)) [
      | inl e ↦ rw (e) ((omega arith, nth_here m i h hs e), later)
      | inr e ↦ rw (e) later
    ]

first_of :
    (P : ℕ → Type 0) (i : ℕ) (is : List ℕ) (b : Bool)
    → b ≡ true
    → All P (if b then i ∷ is else is)
    → P i
first_of P i is true e (p, all) = p
first_of P i is false e all = cc

later_of :
    (P : ℕ → Type 0) (i : ℕ) (is : List ℕ) (b : Bool) → All P (if b then i ∷ is else is) → All P is
later_of P i is true (p, all) = all
later_of P i is false all = all

-- What holds of all listed indices holds of each place with the value.
indices_of_complete :
    (P : ℕ → Type 0) (m i j : ℕ) (hs : List ℕ)
    → nth j hs ≡ some m
    → All P (indices_of m i hs)
    → P (i + j)
unfolding indices_of
indices_of_complete P m i j [] h all = cc
indices_of_complete P m i zero (x ∷ hs) h all =
    let same : x ≡ m = cc in
    let test : (x == m) ≡ true = ground arith in
    let here : i + 0 ≡ i = omega arith in
    rw (here) (first_of P i (indices_of m (i + 1) hs) (x == m) test all)
indices_of_complete P m i (suc j) (x ∷ hs) h all =
    let rest =
      indices_of_complete P m (i + 1) j hs h
        (later_of P i (indices_of m (i + 1) hs) (x == m) all) in
    let shift : i + suc j ≡ i + 1 + j = omega arith in rw (shift) rest

-- The better of two seconds.
abbrev better : (ℕ → ℕ) → ℕ → ℕ → ℕ
better score b s = if ltb (score s) (score b) then s else b

better_keeps : (P : ℕ → Type 0) (score : ℕ → ℕ) (b s : ℕ) → P b → P s → P (better score b s)
better_keeps P score b s hb hs = elim (Bool-cases (ltb (score s) (score b))) [
  | inl e ↦ rw (e) hs
  | inr e ↦ rw (e) hb
]

best_of_keeps :
    (P : ℕ → Type 0) (score : ℕ → ℕ) (b : ℕ) (ss : List ℕ) → P b → All P ss → P (best_of score b ss)
unfolding best_of
best_of_keeps P score b [] h all = h
best_of_keeps P score b (s ∷ ss) h (hs, all) =
    best_of_keeps P score (better score b s) ss (better_keeps P score b s h hs) all

better_least :
    (score : ℕ → ℕ) (b s : ℕ)
    → (score (better score b s) ≤ score b) × (score (better score b s) ≤ score s)
better_least score b s = elim (Bool-cases (ltb (score s) (score b))) [
  | inl e ↦ rw (e) (ground arith)
  | inr e ↦ rw (e) (ground arith)
]

best_of_least :
    (score : ℕ → ℕ) (b : ℕ) (ss : List ℕ)
    → (score (best_of score b ss) ≤ score b) × All (λ s. score (best_of score b ss) ≤ score s) ss
unfolding best_of
best_of_least score b [] = (omega arith, tt)
best_of_least score b (s ∷ ss) =
    let (best, rest) = best_of_least score (better score b s) ss in
    let (le_b, le_s) = better_least score b s in (omega arith, (omega arith, rest))

-- A list of candidates that is not empty: the second chosen is one of them, and none scores lower.
best_second_lem :
    (P : ℕ → Type 0) (score : ℕ → ℕ) (ss : List ℕ)
    → ¬ (ss ≡ [])
    → All P ss
    → P (best_second score ss) × All (λ s. score (best_second score ss) ≤ score s) ss
unfolding best_second
best_second_lem P score [] h all = absurd (h refl)
best_second_lem P score (s ∷ ss) h (p, all) =
    (best_of_keeps P score s ss p all, best_of_least score s ss)

lowest_place : (h : ℕ) (hs : List ℕ) → (j : ℕ) × (nth j (h ∷ hs) ≡ some (least h hs))
lowest_place h hs = elim (least_attained h hs) [
  | inl e ↦ (0, ap some (sym e))
  | inr (j, e) ↦ (suc j, e)
]

indices_of-some : (m : ℕ) (hs : List ℕ) → (j : ℕ) × (nth j hs ≡ some m) → ¬ (indices_of m 0 hs ≡ [])
indices_of-some m hs (j, e) empty = indices_of_complete (λ k. ⊥) m 0 j hs e (rw (empty) tt)

nth_from_start : (m k : ℕ) (hs : List ℕ) → (0 ≤ k) × (nth (k - 0) hs ≡ some m) → nth k hs ≡ some m
nth_from_start m k hs (le, e) = let start : k - 0 ≡ k = omega arith in rw (← start) e

from_start : (P : ℕ → Type 0) (j : ℕ) → P (0 + j) → P j
from_start P j p = let start : 0 + j ≡ j = omega arith in rw (← start) p

least_of_all : (h j w : ℕ) (hs : List ℕ) → nth j (h ∷ hs) ≡ some w → least h hs ≤ w
least_of_all h zero w hs e = let same : h ≡ w = cc in omega (arith, least-le h hs)
least_of_all h (suc j) w hs e = least_lower h j w hs e

best_second-least :
    (score : ℕ → ℕ) (h : ℕ) (hs : List ℕ)
    → let m = least h hs in
      let best = best_second score (quietest (h ∷ hs)) in
      (nth best (h ∷ hs) ≡ some m)
      × ((j w : ℕ) → nth j (h ∷ hs) ≡ some w → m ≤ w)
      × ((j : ℕ) → nth j (h ∷ hs) ≡ some m → score best ≤ score j)
unfolding quietest
best_second-least score h hs =
    let m = least h hs in
    let found = indices_of m 0 (h ∷ hs) in
    let (chosen, none_lower) =
      best_second_lem (λ k. nth k (h ∷ hs) ≡ some m) score found
        (indices_of-some m (h ∷ hs) (lowest_place h hs))
        (All-map _ (λ k. nth k (h ∷ hs) ≡ some m) found (λ k p. nth_from_start m k (h ∷ hs) p)
          (indices_of-nth m 0 (h ∷ hs))) in
    (
      chosen,
      λ j w e. least_of_all h j w hs e,
      λ j e.
          from_start (λ k. score (best_second score found) ≤ score k) j
            (indices_of_complete (λ k. score (best_second score found) ≤ score k) m 0 j (h ∷ hs) e
              none_lower),
    )

length-heat : (i w : ℕ) (hs : List ℕ) → length (heat i w hs) ≡ length hs
unfolding heat
length-heat i w [] = refl
length-heat zero w (h ∷ hs) = refl
length-heat (suc i) w (h ∷ hs) = ap suc (length-heat i w hs)

length-mark_cycles :
    (fuel t interval w : ℕ) (hs : List ℕ) → length (mark_cycles fuel t interval w hs) ≡ length hs
unfolding mark_cycles
length-mark_cycles zero t interval w hs = refl
length-mark_cycles (suc fuel) t interval w hs =
    let rest = length-mark_cycles fuel (t + interval) interval w (heat (t / 1000 % 60) w hs) in
    let heated = length-heat (t / 1000 % 60) w hs in ground arith

length-if :
    (b : Bool) (n : ℕ) (xs ys : List ℕ)
    → length xs ≡ n
    → length ys ≡ n
    → length (if b then xs else ys) ≡ n
length-if true n xs ys h k = h
length-if false n xs ys h k = k

length-mark_active :
    (now : ℕ) (d : Dict ActiveBot) (hs : List ℕ) (n : ℕ)
    → length hs ≡ n
    → length (mark_active now d hs) ≡ n
unfolding mark_active
length-mark_active now [] hs n h = h
length-mark_active now ((k, bot) ∷ d) hs n h =
    let offset = bot.loop_interval - (now - bot.last_cycle) % bot.loop_interval in
    let marked = length-mark_cycles cycle_fuel offset bot.loop_interval bot.weight_per_cycle hs in
    length-mark_active now d _ n (length-if (bot.loop_interval == 0) n hs _ h (marked ∙ h))

length-mark_staged :
    (now : ℕ) (d : Dict StagedBot) (hs : List ℕ) (n : ℕ)
    → length hs ≡ n
    → length (mark_staged now d hs) ≡ n
unfolding mark_staged
length-mark_staged now [] hs n h = h
length-mark_staged now ((k, s) ∷ d) hs n h =
    let sec = seconds_ahead now s.launch_at in
    let test = is_staged s.status && is_ahead now s.launch_at && ltb sec 60 in
    length-mark_staged now d _ n (length-if test n _ hs (length-heat (sec % 60) 15 hs ∙ h) h)

length-heatmap : (now : ℕ) (c : Coordinator) → length (heatmap now c) ≡ 60
unfolding heatmap zeros
length-heatmap now c =
    length-mark_staged now c.staged (mark_active now c.active (zeros 60)) 60
      (length-mark_active now c.active (zeros 60) 60 refl)

-- A second of the heatmap that has the least weight, and of those the least score.
abbrev pub IsBest : (ℕ → ℕ) → List ℕ → ℕ → Type 0
IsBest score hs best =
    (m : ℕ) × (nth best hs ≡ some m)
    × ((j w : ℕ) → nth j hs ≡ some w → m ≤ w)
    × ((j : ℕ) → nth j hs ≡ some m → score best ≤ score j)

IsBest-of_heat :
    (score : ℕ → ℕ) (hs : List ℕ)
    → 0 < length hs
    → IsBest score hs (best_second score (quietest hs))
IsBest-of_heat score [] h = absurd (omega arith)
IsBest-of_heat score (h ∷ hs) pos =
    let (found, lowest, scored) = best_second-least score h hs in
    (least h hs, found, lowest, scored)

-- The heatmap has a place for each of 60 seconds. The second chosen for a launch is one of them with
-- the lowest predicted weight, and of all the seconds with that weight none has a lower collision
-- score, whatever the clock reads as each of them is scored.
pub best_launch_second_least :
    (now : ℕ) (clock : ℕ → ℕ) (interval : ℕ) (c : Coordinator)
    → (length (heatmap now c) ≡ 60)
      × IsBest (score_of clock interval c) (heatmap now c) (best_launch_second now clock interval c)
unfolding best_launch_second
best_launch_second_least now clock interval c =
    let size = length-heatmap now c in
    (size, IsBest-of_heat (score_of clock interval c) (heatmap now c) (omega (arith, size)))
