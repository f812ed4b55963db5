-- ===== src/ApiGovernor/Races.antt =====
-- `request_token` of runtime/core/api_governor.py checks and does not reserve.
use pecunator_accu_monetas.Prelude.{
  ℕ, ◌≡◌, refl, ◌∙◌, Bool-cases, inl, inr, Option, none, some, List, [], ◌∷◌, arith,
}
use pecunator_accu_monetas.Prelude.Dict.{lookup, lookup-insert_self}
use pecunator_accu_monetas.ApiGovernor.{
  Governor, ServiceConfig, LimitType, Usage, recent, check_window, check_quota, check_service,
  token_for, request_token, reset_daily_if_needed,
}
use pecunator_accu_monetas.ApiGovernor.Settings.{request_token-services}
use Prim.Native.String.{String}

recent-recent :
    (c : ServiceConfig) (now : ℕ) (us : List Usage)
    → recent c now (recent c now us) ≡ recent c now us
unfolding recent
recent-recent c now [] = refl
recent-recent c now (u ∷ us) = ground (arith, recent-recent c now us)

reset-date : (today : ℕ) (g : Governor) → (reset_daily_if_needed today g).daily_date ≡ today
unfolding reset_daily_if_needed
reset-date today g = ground arith

reset_same_day :
    (today : ℕ) (g : Governor) → g.daily_date ≡ today → reset_daily_if_needed today g ≡ g
unfolding reset_daily_if_needed
reset_same_day today g h = ground arith

module _ (s : String) (units today now : ℕ) where
  check_quota-again :
      (l : LimitType) (c : ServiceConfig) (g : Governor)
      → (check_quota l c s units now (check_quota l c s units now g).0).1
        ≡ (check_quota l c s units now g).1
  unfolding check_quota check_window
  check_quota-again LimitType.daily c g = refl
  check_quota-again LimitType.other c g = refl
  check_quota-again _ c g = rw (lookup-insert_self, recent-recent) refl

  check_quota-others :
      (l : LimitType) (c : ServiceConfig) (g : Governor)
      → ((check_quota l c s units now g).0.daily_date ≡ g.daily_date)
        × ((check_quota l c s units now g).0.last_call ≡ g.last_call)
  unfolding check_quota check_window
  check_quota-others LimitType.daily c g = (refl, refl)
  check_quota-others _ c g = (refl, refl)

  check_service-again :
      (c : ServiceConfig) (g : Governor)
      → (check_service c s units now (check_service c s units now g).0).1
        ≡ (check_service c s units now g).1
  unfolding check_service
  check_service-again c g =
      ground (arith, check_quota-again c.limit_type c g, check_quota-others c.limit_type c g)

  check_service-date :
      (c : ServiceConfig) (g : Governor)
      → (check_service c s units now g).0.daily_date ≡ g.daily_date
  unfolding check_service
  check_service-date c g = ground (arith, check_quota-others c.limit_type c g)

  token_for-again :
      (o : Option ServiceConfig) (g : Governor)
      → (token_for o s units today now (token_for o s units today now g).0).1
        ≡ (token_for o s units today now g).1
  unfolding token_for
  token_for-again none g = refl
  token_for-again (some c) g =
      let g' = reset_daily_if_needed today g in
      let h = (check_service c s units now g').0 in
      let same_day : reset_daily_if_needed today h ≡ h =
        reset_same_day today h (check_service-date c g' ∙ reset-date today g) in
      elim (Bool-cases c.enabled) [
        | inl on ↦ simp (on, same_day) (check_service-again c g')
        | inr off ↦ simp off
      ]

  -- Asking again at the same reading gives the same answer: a token that was given reserves nothing,
  -- so a second caller that asks before the first has recorded is let through as well.
  pub request_token_twice :
      (g : Governor)
      → (request_token s units today now (request_token s units today now g).0).1
        ≡ (request_token s units today now g).1
  unfolding request_token
  request_token_twice g =
      rw (request_token-services s units today now g, request_token)
        (token_for-again (lookup s g.services) g)
