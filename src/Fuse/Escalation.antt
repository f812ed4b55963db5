-- ===== src/Fuse/Escalation.antt =====
-- The backoff of runtime/core/api_fuse.py over a run of trips.
use pecunator_accu_monetas.Prelude.{
  ℕ, suc, ◌+◌, ◌*◌, ◌^◌, ◌≤◌, ◌<◌, ◌≡◌, min, true, false, List, [], ◌∷◌, arith, length, All,
}
use pecunator_accu_monetas.Fuse.Breaker
use pecunator_accu_monetas.Fuse.Breaker.{Breaker, Reason, ms}
use pecunator_accu_monetas.Fuse.Invariant.{IsValid, trip-IsValid, is_tripped-IsValid}

-- The cooldown that `_next_escalated_cooldown` announces is the one that a trip at the same reading
-- sets, unless the trip is forced to the ceiling.
pub next_escalated_cooldown-trip :
    (grace now : ℕ) (r : Reason) (b : Breaker)
    → b.tripped ≡ false
    → (Breaker.trip grace now r false b).current_cooldown
      ≡ Breaker.next_escalated_cooldown grace now b
unfolding Breaker.trip Breaker.next_escalated_cooldown
next_escalated_cooldown-trip grace now r b closed = ground arith

-- How a tripped fuse comes to trip again, in milliseconds: from the end of its cooldown to the check
-- that notices it, from the two readings of the clock in that check, of which the second is the time
-- of the reset, and from the reset to the next trip.
pub record Retrip : Type 0 where
  pub late : ℕ
  pub lag : ℕ
  pub after : ℕ

-- The fuse is checked once its cooldown has ended, resets, and trips again.
unfoldable pub retrip : ℕ → Reason → Retrip → Breaker → Breaker
retrip grace r d b =
    let t = b.tripped_at + ms b.current_cooldown + d.late in
    let reset = t + d.lag in
    Breaker.trip grace (reset + d.after) r false (Breaker.is_tripped t reset b).0

-- A run of such trips.
unfoldable pub retrips : ℕ → Reason → List Retrip → Breaker → Breaker
retrips grace r [] b = b
retrips grace r (d ∷ ds) b = retrips grace r ds (retrip grace r d b)

pub retrip-IsValid :
    (grace : ℕ) (r : Reason) (d : Retrip) (b : Breaker) → IsValid b → IsValid (retrip grace r d b)
unfolding retrip
retrip-IsValid grace r d b v =
    let t = b.tripped_at + ms b.current_cooldown + d.late in
    let reset = t + d.lag in
    trip-IsValid grace (reset + d.after) r false (Breaker.is_tripped t reset b).0
      (is_tripped-IsValid t reset b v)

-- Within the grace window the streak grows by one and the cooldown follows it.
retrip_in_grace :
    (grace : ℕ) (r : Reason) (d : Retrip) (b : Breaker)
    → IsValid b
    → b.tripped ≡ true
    → d.after < ms grace
    → let b' = retrip grace r d b in
      (b'.tripped ≡ true)
      × (b'.consecutive_streak ≡ suc b.consecutive_streak)
      × (b'.current_cooldown ≡ Breaker.backoff (suc b.consecutive_streak) b)
      × (b'.base_cooldown_sec ≡ b.base_cooldown_sec)
      × (b'.max_cooldown_sec ≡ b.max_cooldown_sec)
unfolding retrip Breaker.trip Breaker.is_tripped Breaker.next_streak Breaker.in_grace_window
    Breaker.backoff
retrip_in_grace grace r d b v tripped quick = ground arith

-- A trip after the grace window starts the streak again and gets the base cooldown.
pub retrip_after_grace :
    (grace : ℕ) (r : Reason) (d : Retrip) (b : Breaker)
    → IsValid b
    → b.tripped ≡ true
    → ms grace ≤ d.after
    → let b' = retrip grace r d b in
      (b'.tripped ≡ true)
      × (b'.consecutive_streak ≡ 1)
      × (b'.current_cooldown ≡ b.base_cooldown_sec)
unfolding retrip Breaker.trip Breaker.is_tripped Breaker.next_streak Breaker.in_grace_window
    Breaker.backoff
retrip_after_grace grace r d b v tripped slow = ground arith

retrips_streak :
    (grace : ℕ) (r : Reason) (ds : List Retrip) (b : Breaker)
    → IsValid b
    → b.tripped ≡ true
    → b.current_cooldown ≡ Breaker.backoff b.consecutive_streak b
    → All (λ d. d.after < ms grace) ds
    → let b' = retrips grace r ds b in
      (b'.consecutive_streak ≡ b.consecutive_streak + length ds)
      × (b'.current_cooldown ≡ Breaker.backoff (b.consecutive_streak + length ds) b)
unfolding retrips Breaker.backoff
retrips_streak grace r [] b v tripped e quick = ground arith
retrips_streak grace r (d ∷ ds) b v tripped e quick =
    let step = retrip_in_grace grace r d b v tripped quick.0 in
    let b' = retrip grace r d b in
    ground (
      arith,
      retrips_streak grace r ds b' (retrip-IsValid grace r d b v) step.0 (ground arith) quick.1,
    )

-- A first trip of a valid fuse with no streak, and then trips that each follow an automatic reset
-- within the grace window, which counts from the reset, however long after the end of its cooldown a
-- check notices it: the cooldown is the base doubled once for each further trip, up to the ceiling.
pub trips_back_off :
    (grace now : ℕ) (r : Reason) (ds : List Retrip) (b : Breaker)
    → IsValid b
    → b.tripped ≡ false
    → b.consecutive_streak ≡ 0
    → All (λ d. d.after < ms grace) ds
    → (retrips grace r ds (Breaker.trip grace now r false b)).current_cooldown
      ≡ min (b.base_cooldown_sec * 2 ^ length ds) b.max_cooldown_sec
unfolding Breaker.trip Breaker.backoff Breaker.next_streak
trips_back_off grace now r ds b v closed fresh quick =
    let b' = Breaker.trip grace now r false b in
    ground (
      arith,
      retrips_streak grace r ds b' (trip-IsValid grace now r false b v) (ground arith)
          (ground arith) quick,
    )
