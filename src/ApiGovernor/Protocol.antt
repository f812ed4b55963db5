-- ===== src/ApiGovernor/Protocol.antt =====
-- Callers of runtime/core/api_governor.py that ask for a token, call the service if it is given, and
-- record the call, in any interleaving: what the sliding window then holds.
use pecunator_accu_monetas.Prelude.{
  ℕ, zero, suc, ◌+◌, ◌≤◌, ◌≡◌, subst⁻¹, Bool, true, Option, none, some, List, [], ◌∷◌, arith,
  Option-cases, inl, inr, if◌then◌else◌,
}
use pecunator_accu_monetas.Prelude.Dict.{Dict, same, same→eq, lookup, lookup-insert_self}
use pecunator_accu_monetas.ApiGovernor.{
  new, Governor, ServiceConfig, LimitType, Token, effective_limit, recent, window_of, check_window,
  check_quota, check_service, token_for, request_token, record_usage, reset_daily_if_needed,
}
use pecunator_accu_monetas.ApiGovernor.Window.{
  counted, total-recent_mono, total-recent-recent, request_token-counted, record_usage-counted,
}
use pecunator_accu_monetas.ApiGovernor.Settings.{request_token-services, record_usage-services}
use Prim.Native.String.{String}

-- A call that was let through and is not recorded yet.
pub record Flight : Type 0 where
  pub service : String
  pub units : ℕ

-- What callers do: one asks, for a service and units at a reading of the day and the clock; or one of
-- those that were let through records its call, with how the call and the database went.
pub data Event : Type 0 where
  asks : String → ℕ → ℕ → ℕ → Event
  records : ℕ → Bool → Bool → ℕ → ℕ → Event

pub record Hub : Type 0 where
  pub governor : Governor
  pub in_flight : List Flight

-- The caller at a position, and the others.
unfoldable pub pick : ℕ → List Flight → Option (Flight × List Flight)
pick i [] = none
pick zero (f ∷ fs) = some (f, fs)
pick (suc i) (f ∷ fs) = elim (pick i fs) [ none ↦ none | some p ↦ some (p.0, f ∷ p.1) ]

-- A caller goes on only with a token.
unfoldable pub launch : Token → Flight → Governor → List Flight → Hub
launch Token.allowed f g fs = record { governor = g; in_flight = f ∷ fs }
launch _ f g fs = record { governor = g; in_flight = fs }

unfoldable pub land : Option (Flight × List Flight) → Bool → Bool → ℕ → ℕ → Hub → Hub
land none success db_ok today now h = h
land (some p) success db_ok today now h = record {
  governor = record_usage p.0.service p.0.units success db_ok today now h.governor;
  in_flight = p.1;
}

unfoldable pub step : Event → Hub → Hub
step (Event.asks s units today now) h =
    let (g, token) = request_token s units today now h.governor in
    launch token (record { service = s; units = units }) g h.in_flight
step (Event.records i success db_ok today now) h =
    land (pick i h.in_flight) success db_ok today now h

unfoldable pub run : List Event → Hub → Hub
run [] h = h
run (e ∷ es) h = run es (step e h)

-- A hub with a new governor.
abbrev pub opened : Dict ServiceConfig → ℕ → Hub
opened services today = record { governor = new services today; in_flight = [] }

-- The units of a service in flight.
unfoldable pub units_of : String → Flight → ℕ
units_of service f = if same f.service service then f.units else 0

unfoldable pub flying : String → List Flight → ℕ
flying service [] = 0
flying service (f ∷ fs) = units_of service f + flying service fs

abbrev pub reading : Event → ℕ
reading (Event.asks s units today now) = now
reading (Event.records i success db_ok today now) = now

-- The readings of one clock.
abbrev pub InOrder : ℕ → List Event → Type 0
InOrder last [] = Unit
InOrder last (e ∷ es) = (last ≤ reading e) × InOrder (reading e) es

abbrev pub last_reading : ℕ → List Event → ℕ
last_reading last [] = last
last_reading last (e ∷ es) = last_reading (reading e) es

-- An ask for the service finds at most so many units of it in flight.
abbrev pub IsSpaced : String → ℕ → Event → Hub → Type 0
IsSpaced service others (Event.asks s units today now) h =
    same s service ≡ true → flying service h.in_flight ≤ others
IsSpaced service others (Event.records i success db_ok today now) h = Unit

abbrev pub AreSpaced : String → ℕ → List Event → Hub → Type 0
AreSpaced service others [] h = Unit
AreSpaced service others (e ∷ es) h =
    IsSpaced service others e h × AreSpaced service others es (step e h)

pub flying-pick :
    (service : String) (i : ℕ) (fs rest : List Flight) (f : Flight)
    → pick i fs ≡ some (f, rest)
    → flying service fs ≡ units_of service f + flying service rest
unfolding pick flying
flying-pick service i [] rest f h = cc
flying-pick service zero (g ∷ fs) rest f h = ground arith
flying-pick service (suc i) (g ∷ fs) rest f h = elim (Option-cases (pick i fs)) [
  | inl e ↦ ground arith
  | inr (p, e) ↦ ground (arith, flying-pick service i fs p.1 p.0 e)
]

abbrev pub IsWindowed : LimitType → Type 0
IsWindowed LimitType.weight = Unit
IsWindowed LimitType.rpm = Unit
IsWindowed _ = ⊥

check_window-allowed :
    (c : ServiceConfig) (s : String) (units now : ℕ) (g : Governor)
    → (check_window c s units now g).1 ≡ Token.allowed
    → counted c now s (check_window c s units now g).0 + units ≤ effective_limit c
unfolding check_window
check_window-allowed c s units now g h =
    rw lookup-insert_self (ground (arith, total-recent-recent c c now now (window_of s g)))

check_quota-allowed :
    (l : LimitType) (c : ServiceConfig) (s : String) (units now : ℕ) (g : Governor)
    → IsWindowed l
    → (check_quota l c s units now g).1 ≡ Token.allowed
    → counted c now s (check_quota l c s units now g).0 + units ≤ effective_limit c
unfolding check_quota
check_quota-allowed LimitType.weight c s units now g w h = check_window-allowed c s units now g h
check_quota-allowed LimitType.rpm c s units now g w h = check_window-allowed c s units now g h
check_quota-allowed _ c s units now g w h = absurd w

check_service-allowed :
    (c : ServiceConfig) (s : String) (units now : ℕ) (g : Governor)
    → IsWindowed c.limit_type
    → (check_service c s units now g).1 ≡ Token.allowed
    → counted c now s (check_service c s units now g).0 + units ≤ effective_limit c
unfolding check_service
check_service-allowed c s units now g w h =
    ground (arith, check_quota-allowed c.limit_type c s units now g w)

token_for-allowed :
    (o : Option ServiceConfig) (c : ServiceConfig) (s : String) (units today now : ℕ) (g : Governor)
    → o ≡ some c
    → c.enabled ≡ true
    → IsWindowed c.limit_type
    → (token_for o s units today now g).1 ≡ Token.allowed
    → counted c now s (token_for o s units today now g).0 + units ≤ effective_limit c
unfolding token_for
token_for-allowed none c s units today now g known on w = λ h. cc
token_for-allowed (some c') c s units today now g known on w =
    let same_c : c' ≡ c = cc in
    simp (same_c, on) (check_service-allowed c s units now (reset_daily_if_needed today g) w)

-- A token is given only where the window has room for the units.
pub request_token-allowed :
    (c : ServiceConfig) (s : String) (units today now : ℕ) (g : Governor)
    → lookup s g.services ≡ some c
    → c.enabled ≡ true
    → IsWindowed c.limit_type
    → (request_token s units today now g).1 ≡ Token.allowed
    → counted c now s (request_token s units today now g).0 + units ≤ effective_limit c
unfolding request_token
request_token-allowed c s units today now g known on w h =
    token_for-allowed (lookup s g.services) c s units today now g known on w h

request_token-allowed_same :
    (c : ServiceConfig) (s service : String) (units today now : ℕ) (g : Governor)
    → s ≡ service
    → lookup service g.services ≡ some c
    → c.enabled ≡ true
    → IsWindowed c.limit_type
    → (request_token s units today now g).1 ≡ Token.allowed
    → counted c now service (request_token s units today now g).0 + units ≤ effective_limit c
request_token-allowed_same c s service units today now g e known on w =
    rw e (request_token-allowed c service units today now g known on w)

module _ (c : ServiceConfig) (service : String) (others : ℕ) where
  -- At every reading from `last` on, the window and what is in flight are within the limit and the
  -- others, under these settings.
  abbrev IsWithin : ℕ → Hub → Type 0
  IsWithin last h =
      (lookup service h.governor.services ≡ some c)
      × ((t : ℕ)
          → last ≤ t
          → counted c t service h.governor + flying service h.in_flight
            ≤ effective_limit c + others)

  records-IsWithin :
      (i : ℕ) (success db_ok : Bool) (last today now : ℕ) (h : Hub)
      → last ≤ now
      → IsWithin last h
      → IsWithin now (step (Event.records i success db_ok today now) h)
  unfolding step land units_of
  records-IsWithin i success db_ok last today now h order (known, within) =
      elim (Option-cases (pick i h.in_flight)) [
        | inl e ↦
            subst⁻¹ (λ o. IsWithin now (land o success db_ok today now h)) e
              (known, λ t ht. within t (omega arith))
        | inr ((f, rest), e) ↦
            subst⁻¹ (λ o. IsWithin now (land o success db_ok today now h)) e
              (
                rw record_usage-services known,
                λ t ht. ground (
                  arith,
                  within t (omega arith),
                  flying-pick service i h.in_flight rest f e,
                  record_usage-counted c t service f.service f.units today now success db_ok
                      h.governor,
                ),
              )
      ]

  launch-IsWithin :
      (token : Token) (f : Flight) (g : Governor) (fs : List Flight) (now : ℕ)
      → lookup service g.services ≡ some c
      → (same f.service service ≡ true
          → token ≡ Token.allowed
          → counted c now service g + f.units ≤ effective_limit c)
      → (same f.service service ≡ true → flying service fs ≤ others)
      → ((t : ℕ) → now ≤ t → counted c t service g + flying service fs ≤ effective_limit c + others)
      → IsWithin now (launch token f g fs)
  unfolding launch flying units_of
  launch-IsWithin Token.allowed f g fs now known room spaced within = (
    known,
    λ t ht.
        ground (arith, room, spaced, within t ht, total-recent_mono c now t (window_of service g)),
  )
  launch-IsWithin _ f g fs now known room spaced within = (known, within)

  module _ (on : c.enabled ≡ true) (w : IsWindowed c.limit_type) where
    step-IsWithin :
        (last : ℕ) (e : Event) (h : Hub)
        → last ≤ reading e
        → IsSpaced service others e h
        → IsWithin last h
        → IsWithin (reading e) (step e h)
    unfolding step
    step-IsWithin last (Event.records i success db_ok today now) h order spaced within =
        records-IsWithin i success db_ok last today now h order within
    step-IsWithin last (Event.asks s units today now) h order spaced (known, within) =
        let asked = request_token s units today now h.governor in
        launch-IsWithin asked.1 (record { service = s; units = units }) asked.0 h.in_flight now
          (rw request_token-services known)
          (λ is given.
            request_token-allowed_same c s service units today now h.governor (same→eq s service is)
              known on w given)
          spaced
          (λ t ht. omega (
            arith,
            within t (omega arith),
            request_token-counted c t service s units today now h.governor,
          ))

    run-IsWithin :
        (last : ℕ) (es : List Event) (h : Hub)
        → InOrder last es
        → AreSpaced service others es h
        → IsWithin last h
        → IsWithin (last_reading last es) (run es h)
    unfolding run
    run-IsWithin last [] h order spaced within = within
    run-IsWithin last (e ∷ es) h order spaced within =
        run-IsWithin (reading e) es (step e h) order.1 spaced.1
          (step-IsWithin last e h order.0 spaced.0 within)

-- Callers of any services ask before their calls and record after them, interleaved in any way, from a
-- new governor. If an ask for a service with a sliding window never finds more than `others` units of
-- it in flight (let through and not yet recorded), the units of the service that count at any later
-- reading, with those in flight, are within its effective limit and `others`. Where no two calls of
-- the service overlap, `others` can be 0.
pub window_within_budget :
    (services : Dict ServiceConfig) (service : String) (c : ServiceConfig) (today others t : ℕ)
    (es : List Event)
    → lookup service services ≡ some c
    → c.enabled ≡ true
    → IsWindowed c.limit_type
    → InOrder 0 es
    → AreSpaced service others es (opened services today)
    → last_reading 0 es ≤ t
    → let h = run es (opened services today) in
      counted c t service h.governor + flying service h.in_flight ≤ effective_limit c + others
unfolding new recent lookup flying
window_within_budget services service c today others t es known on w order spaced later =
    (run-IsWithin c service others on w 0 es (opened services today) order spaced
        (known, λ u hu. omega arith)).1
      t later
