-- ===== src/ApiGovernor/Window.antt =====
-- The sliding windows of runtime/core/api_governor.py under each operation.
use pecunator_accu_monetas.Prelude.{
  ℕ, ◌+◌, ◌≤◌, ◌≡◌, Bool, Option, none, some, List, [], ◌∷◌, ◌++◌, arith, if◌then◌else◌, keep_if,
  Bool-cases, inl, inr,
}
use pecunator_accu_monetas.Prelude.Dict.{same, same→eq, lookup, lookup-insert}
use pecunator_accu_monetas.ApiGovernor.{
  Governor, ServiceConfig, LimitType, Usage, recent, total, window_of, check_window, check_quota,
  check_service, token_for, request_token, record_call, record_usage, reset_daily_if_needed,
}
use native.Mathlib.Nat.{le_refl}
use Prim.Native.String.{String}

-- What counts at a later time counted at an earlier one.
pub total-recent_mono :
    (cfg : ServiceConfig) (now t : ℕ) (us : List Usage)
    → now ≤ t
    → total (recent cfg t us) ≤ total (recent cfg now us)
unfolding recent
total-recent_mono cfg now t [] h = omega arith
total-recent_mono cfg now t (u ∷ us) h = ground (arith, total-recent_mono cfg now t us h)

-- Dropping entries drops some of what counts.
pub total-recent-keep_if :
    (cfg : ServiceConfig) (t : ℕ) (keep : Usage → Bool) (us : List Usage)
    → total (recent cfg t (keep_if keep us)) ≤ total (recent cfg t us)
unfolding recent
total-recent-keep_if cfg t keep [] = omega arith
total-recent-keep_if cfg t keep (u ∷ us) = ground (arith, total-recent-keep_if cfg t keep us)

pub total-recent-recent :
    (cfg c : ServiceConfig) (t now : ℕ) (us : List Usage)
    → total (recent cfg t (recent c now us)) ≤ total (recent cfg t us)
unfolding recent
total-recent-recent cfg c t now us = total-recent-keep_if cfg t _ us

pub total-recent-append :
    (cfg : ServiceConfig) (t at units : ℕ) (us : List Usage)
    → total (recent cfg t (us ++ record { at = at; units = units } ∷ []))
      ≤ total (recent cfg t us) + units
unfolding recent
total-recent-append cfg t at units [] = ground arith
total-recent-append cfg t at units (u ∷ us) = ground (arith, total-recent-append cfg t at units us)

-- What counts of a service's window at `t`.
abbrev pub counted : ServiceConfig → ℕ → String → Governor → ℕ
counted cfg t service g = total (recent cfg t (window_of service g))

pub reset-window :
    (today : ℕ) (g : Governor) → (reset_daily_if_needed today g).window_usage ≡ g.window_usage
unfolding reset_daily_if_needed
reset-window today g = ground arith

module _ (cfg : ServiceConfig) (t : ℕ) (service : String) where
  check_window-counted :
      (c : ServiceConfig) (s : String) (units now : ℕ) (g : Governor)
      → counted cfg t service (check_window c s units now g).0 ≤ counted cfg t service g
  unfolding check_window
  check_window-counted c s units now g = elim (Bool-cases (same s service)) [
    | inl is ↦
        rw (lookup-insert, is, same→eq s service is)
          (total-recent-recent cfg c t now (window_of service g))
    | inr other ↦ rw (lookup-insert, other) (le_refl _)
  ]

  check_quota-counted :
      (l : LimitType) (c : ServiceConfig) (s : String) (units now : ℕ) (g : Governor)
      → counted cfg t service (check_quota l c s units now g).0 ≤ counted cfg t service g
  unfolding check_quota
  check_quota-counted LimitType.weight c s units now g = check_window-counted c s units now g
  check_quota-counted LimitType.rpm c s units now g = check_window-counted c s units now g
  check_quota-counted _ c s units now g = le_refl _

  check_service-counted :
      (c : ServiceConfig) (s : String) (units now : ℕ) (g : Governor)
      → counted cfg t service (check_service c s units now g).0 ≤ counted cfg t service g
  unfolding check_service
  check_service-counted c s units now g =
      ground (arith, check_quota-counted c.limit_type c s units now g)

  reset-counted :
      (today : ℕ) (g : Governor)
      → counted cfg t service (reset_daily_if_needed today g) ≡ counted cfg t service g
  unfolding reset_daily_if_needed
  reset-counted today g = ground arith

  token_for-counted :
      (o : Option ServiceConfig) (s : String) (units today now : ℕ) (g : Governor)
      → counted cfg t service (token_for o s units today now g).0 ≤ counted cfg t service g
  unfolding token_for
  token_for-counted none s units today now g = le_refl _
  token_for-counted (some c) s units today now g = ground (
    arith,
    check_service-counted c s units now (reset_daily_if_needed today g),
    reset-counted today g,
  )

  -- A request adds nothing to any window.
  pub request_token-counted :
      (s : String) (units today now : ℕ) (g : Governor)
      → counted cfg t service (request_token s units today now g).0 ≤ counted cfg t service g
  unfolding request_token
  request_token-counted s units today now g =
      token_for-counted (lookup s g.services) s units today now g

  -- A record adds its units to the window of its service and nothing to the others.
  pub record_usage-counted :
      (s : String) (units today now : ℕ) (success db_ok : Bool) (g : Governor)
      → counted cfg t service (record_usage s units success db_ok today now g)
        ≤ counted cfg t service g + (if same s service then units else 0)
  unfolding record_usage record_call
  record_usage-counted s units today now success db_ok g =
      rw reset-window (elim (Bool-cases (same s service)) [
        | inl is ↦
            rw (lookup-insert, is, same→eq s service is)
              (total-recent-append cfg t now units (window_of service g))
        | inr other ↦ rw (lookup-insert, other) (omega arith)
      ])
