-- ===== src/ApiGovernor/Daily.antt =====
-- The daily quota of runtime/core/api_governor.py under callers that ask and record,
-- in any interleaving.
use pecunator_accu_monetas.Prelude.{
  ℕ, ◌+◌, ◌≤◌, ◌≡◌, refl, Bool, true, Option, none, some, List, [], ◌∷◌, arith, Bool-cases, inl,
  inr, if◌then◌else◌, subst⁻¹, Option-cases,
}
use pecunator_accu_monetas.Prelude.Dict.{Dict, same, same→eq, lookup, lookup-insert}
use pecunator_accu_monetas.ApiGovernor.{
  new, Governor, ServiceConfig, LimitType, Token, effective_limit, used_today, check_daily,
  check_window, check_quota, check_service, token_for, request_token, record_call, record_usage,
  reset_daily_if_needed,
}
use pecunator_accu_monetas.ApiGovernor.Settings.{request_token-services, record_usage-services}
use pecunator_accu_monetas.ApiGovernor.Protocol.{
  Flight, Event, Hub, pick, launch, land, step, run, opened, units_of, flying, AreSpaced,
  flying-pick,
}
use Prim.Native.String.{String}

reset-used_today :
    (today : ℕ) (s : String) (g : Governor)
    → used_today s (reset_daily_if_needed today g) ≤ used_today s g
unfolding reset_daily_if_needed lookup
reset-used_today today s g = ground arith

check_quota-used_today :
    (l : LimitType) (c : ServiceConfig) (s : String) (units now : ℕ) (service : String)
    (g : Governor)
    → used_today service (check_quota l c s units now g).0 ≡ used_today service g
unfolding check_quota check_window
check_quota-used_today LimitType.daily c s units now service g = refl
check_quota-used_today _ c s units now service g = refl

module _ (s : String) (units today now : ℕ) (service : String) where
  token_for-used_today :
      (o : Option ServiceConfig) (g : Governor)
      → used_today service (token_for o s units today now g).0 ≤ used_today service g
  unfolding token_for check_service
  token_for-used_today none g = omega arith
  token_for-used_today (some c) g =
      let g' = reset_daily_if_needed today g in
      ground (
        arith,
        check_quota-used_today c.limit_type c s units now service g',
        reset-used_today today service g,
      )

-- A token is given only where the day's counter has room for the units.
check_service-allowed_daily :
    (l : LimitType) (c : ServiceConfig) (s : String) (units now : ℕ) (g : Governor)
    → l ≡ LimitType.daily
    → (check_quota l c s units now g).1 ≡ Token.allowed
    → used_today s (check_quota l c s units now g).0 + units ≤ effective_limit c
unfolding check_quota check_daily
check_service-allowed_daily LimitType.daily c s units now g d h = ground arith
check_service-allowed_daily _ c s units now g d h = cc

token_for-allowed_daily :
    (o : Option ServiceConfig) (c : ServiceConfig) (s : String) (units today now : ℕ) (g : Governor)
    → o ≡ some c
    → c.enabled ≡ true
    → c.limit_type ≡ LimitType.daily
    → (token_for o s units today now g).1 ≡ Token.allowed
    → used_today s (token_for o s units today now g).0 + units ≤ effective_limit c
unfolding token_for check_service
token_for-allowed_daily none c s units today now g known on d = λ h. cc
token_for-allowed_daily (some c') c s units today now g known on d =
    let same_c : c' ≡ c = cc in
    let g' = reset_daily_if_needed today g in
    simp same_c (λ h. ground (arith, check_service-allowed_daily c.limit_type c s units now g' d))

record_usage-used_today :
    (s service : String) (units today now : ℕ) (success db_ok : Bool) (g : Governor)
    → used_today service (record_usage s units success db_ok today now g)
      ≤ used_today service g + (if same s service then units else 0)
unfolding record_usage record_call
record_usage-used_today s service units today now success db_ok g =
    elim (Bool-cases (same s service)) [
      | inl is ↦
          rw (lookup-insert, is, same→eq s service is)
            (omega (arith, reset-used_today today service (record_call service units now g)))
      | inr other ↦
          rw (lookup-insert, other)
            (omega (arith, reset-used_today today service (record_call s units now g)))
    ]

module _ (c : ServiceConfig) (service : String) (others : ℕ) where
  -- The day's counter and what is in flight are within the limit and the others, under these settings.
  abbrev IsWithinDay : Hub → Type 0
  IsWithinDay h =
      (lookup service h.governor.services ≡ some c)
      × (used_today service h.governor + flying service h.in_flight ≤ effective_limit c + others)

  records-IsWithinDay :
      (i : ℕ) (success db_ok : Bool) (today now : ℕ) (h : Hub)
      → IsWithinDay h
      → IsWithinDay (step (Event.records i success db_ok today now) h)
  unfolding step land units_of
  records-IsWithinDay i success db_ok today now h (known, within) =
      elim (Option-cases (pick i h.in_flight)) [
        | inl e ↦ subst⁻¹ (λ o. IsWithinDay (land o success db_ok today now h)) e (known, within)
        | inr ((f, rest), e) ↦
            subst⁻¹ (λ o. IsWithinDay (land o success db_ok today now h)) e
              (
                rw record_usage-services known,
                ground (
                  arith,
                  within,
                  flying-pick service i h.in_flight rest f e,
                  record_usage-used_today f.service service f.units today now success db_ok
                      h.governor,
                ),
              )
      ]

  launch-IsWithinDay :
      (token : Token) (f : Flight) (g : Governor) (fs : List Flight)
      → lookup service g.services ≡ some c
      → (same f.service service ≡ true
          → token ≡ Token.allowed
          → used_today service g + f.units ≤ effective_limit c)
      → (same f.service service ≡ true → flying service fs ≤ others)
      → used_today service g + flying service fs ≤ effective_limit c + others
      → IsWithinDay (launch token f g fs)
  unfolding launch flying units_of
  launch-IsWithinDay Token.allowed f g fs known room spaced within =
      (known, ground (arith, room, spaced, within))
  launch-IsWithinDay _ f g fs known room spaced within = (known, within)

  module _ (on : c.enabled ≡ true) (daily : c.limit_type ≡ LimitType.daily) where
    room_of_token :
        (s : String) (units today now : ℕ) (g : Governor)
        → s ≡ service
        → lookup service g.services ≡ some c
        → (request_token s units today now g).1 ≡ Token.allowed
        → used_today service (request_token s units today now g).0 + units ≤ effective_limit c
    unfolding request_token
    room_of_token s units today now g e known = rw e (
        token_for-allowed_daily (lookup service g.services) c service units today now g known on
          daily)

    asks-IsWithinDay :
        (s : String) (units today now : ℕ) (h : Hub)
        → (same s service ≡ true → flying service h.in_flight ≤ others)
        → IsWithinDay h
        → IsWithinDay (step (Event.asks s units today now) h)
    unfolding step request_token
    asks-IsWithinDay s units today now h spaced (known, within) =
        let g = h.governor in
        let asked = request_token s units today now g in
        launch-IsWithinDay asked.1 (record { service = s; units = units }) asked.0 h.in_flight
          (rw request_token-services known)
          (λ is. room_of_token s units today now g (same→eq s service is) known) spaced
          (omega
            (arith, within, token_for-used_today s units today now service (lookup s g.services) g))

    run-IsWithinDay :
        (es : List Event) (h : Hub)
        → AreSpaced service others es h
        → IsWithinDay h
        → IsWithinDay (run es h)
    unfolding run
    run-IsWithinDay [] h spaced within = within
    run-IsWithinDay (Event.asks s units today now ∷ es) h (spaced, rest) within =
        run-IsWithinDay es _ rest (asks-IsWithinDay s units today now h spaced within)
    run-IsWithinDay (Event.records i success db_ok today now ∷ es) h (spaced, rest) within =
        run-IsWithinDay es _ rest (records-IsWithinDay i success db_ok today now h within)

-- Callers of any services ask before their calls and record after them, interleaved in any way and each
-- on whatever day, from a new governor. If an ask for a service with a daily limit never finds more
-- than `others` units of it in flight (let through and not yet recorded), the counter of the day with
-- the units in flight is within its effective limit and `others`. Where no two calls of the service
-- overlap, `others` can be 0; a call may be let through on one day and recorded on the next.
pub day_within_budget :
    (services : Dict ServiceConfig) (service : String) (c : ServiceConfig) (today others : ℕ)
    (es : List Event)
    → lookup service services ≡ some c
    → c.enabled ≡ true
    → c.limit_type ≡ LimitType.daily
    → AreSpaced service others es (opened services today)
    → let h = run es (opened services today) in
      used_today service h.governor + flying service h.in_flight ≤ effective_limit c + others
unfolding new lookup flying
day_within_budget services service c today others es known on daily spaced =
    (run-IsWithinDay c service others on daily es (opened services today) spaced
      (known, omega arith)).1
