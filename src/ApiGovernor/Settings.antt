-- ===== src/ApiGovernor/Settings.antt =====
-- No operation of runtime/core/api_governor.py changes the settings of the services.
use pecunator_accu_monetas.Prelude.{ℕ, ◌≡◌, refl, Bool, Option, none, some, arith}
use pecunator_accu_monetas.Prelude.Dict.{lookup}
use pecunator_accu_monetas.ApiGovernor.{
  Governor, ServiceConfig, LimitType, check_window, check_quota, check_service, token_for,
  request_token, record_call, record_usage, reset_daily_if_needed,
}
use Prim.Native.String.{String}

check_quota-services :
    (l : LimitType) (c : ServiceConfig) (s : String) (units now : ℕ) (g : Governor)
    → (check_quota l c s units now g).0.services ≡ g.services
unfolding check_quota check_window
check_quota-services LimitType.daily c s units now g = refl
check_quota-services _ c s units now g = refl

token_for-services :
    (o : Option ServiceConfig) (s : String) (units today now : ℕ) (g : Governor)
    → (token_for o s units today now g).0.services ≡ g.services
unfolding token_for check_service reset_daily_if_needed
token_for-services none s units today now g = refl
token_for-services (some c) s units today now g = ground (
  arith,
  check_quota-services c.limit_type c s units now g,
  check_quota-services c.limit_type c s units now (reset_daily_if_needed today g),
)

pub request_token-services :
    (s : String) (units today now : ℕ) (g : Governor)
    → (request_token s units today now g).0.services ≡ g.services
unfolding request_token
request_token-services s units today now g =
    token_for-services (lookup s g.services) s units today now g

pub record_usage-services :
    (s : String) (units today now : ℕ) (success db_ok : Bool) (g : Governor)
    → (record_usage s units success db_ok today now g).services ≡ g.services
unfolding record_usage record_call reset_daily_if_needed
record_usage-services s units today now success db_ok g = ground arith
