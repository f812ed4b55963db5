-- ===== src/Symmetry/Preflight.antt =====
-- `preflight` and `check_config_only` of runtime/core/symmetry_guard.py. Amounts are whole numbers of
-- the smallest unit of USDT. The client's answers are arguments.
use pecunator_accu_monetas.Prelude.{
  ℕ, ◌+◌, ◌*◌, max, Bool, true, false, not, ◌||◌, Option, none, some, List, [], ◌∷◌, ◌++◌, map, ltb,
  if◌then◌else◌,
}
use pecunator_accu_monetas.Prelude.Codes.{same_codes, upper}
use pecunator_accu_monetas.BudgetGuard.{codes}
use pecunator_accu_monetas.Symmetry.State.{Blocker, HubHealth, Guard}

-- What the guard reads of a bot's configuration.
pub record BotConfig : Type 0 where
  pub symbol : List ℕ
  pub quote_order_qty : ℕ
  pub max_rungs : ℕ

-- `quote_order_qty * max(1, max_rungs_per_symbol)`
unfoldable pub exposure : BotConfig → ℕ
exposure c = c.quote_order_qty * max 1 c.max_rungs

-- The answer on the isolated margin: the free USDT of a wallet, no wallet, or an error.
pub data Margin : Type 0 where
  wallet : ℕ → Margin
  no_wallet not_enabled query_failed : Margin

-- The free USDT of the first balance in USDT.
unfoldable pub usdt_free : List (List ℕ × ℕ) → ℕ
usdt_free [] = 0
usdt_free ((asset, free) ∷ bs) =
    let rest = usdt_free bs in if same_codes (map upper asset) (codes "USDT") then free else rest

abbrev pub block_if : Bool → Blocker → List Blocker
block_if b x = if b then x ∷ [] else []

abbrev pub is_no_text : List ℕ → Bool
is_no_text [] = true
is_no_text (c ∷ cs) = false

unfoldable pub symbol_blockers : List ℕ → List ℕ → List Blocker
symbol_blockers d e =
    if is_no_text d || is_no_text e
    then Blocker.symbol_missing ∷ []
    else block_if (not (same_codes d e)) Blocker.symbol_mismatch

abbrev pub spot_of : Option (List (List ℕ × ℕ)) → ℕ
spot_of none = 0
spot_of (some bs) = usdt_free bs

abbrev pub spot_failed : Option (List (List ℕ × ℕ)) → Bool
spot_failed none = true
spot_failed (some bs) = false

abbrev pub margin_of : Margin → ℕ
margin_of (Margin.wallet free) = free
margin_of _ = 0

abbrev pub is_not_enabled : Margin → Bool
is_not_enabled Margin.not_enabled = true
is_not_enabled _ = false

-- `free < exposure * 1.1`
abbrev pub is_low : ℕ → ℕ → Bool
is_low free exposed = ltb (free * 10) (exposed * 11)

unfoldable pub margin_blockers : List ℕ → ℕ → ℕ → ℕ → Margin → List Blocker
margin_blockers [] spot d e margin = []
margin_blockers (c ∷ cs) spot d e margin =
    block_if (is_not_enabled margin) Blocker.margin_not_enabled
    ++ block_if (is_low (spot + margin_of margin) (d + e)) Blocker.total_capital_low

abbrev pub has_none : List Blocker → Bool
has_none [] = true
has_none (b ∷ bs) = false

abbrev pub verdict : HubHealth → HubHealth
verdict h = record h { cleared = has_none h.blockers }

abbrev pub new_health : ℕ → HubHealth
new_health now = record {
  cleared = false;
  blockers = [];
  spot_usdt_free = 0;
  margin_usdt_free = 0;
  dorothy_exposure = 0;
  elphaba_exposure = 0;
  ts = now;
}

-- The blockers of the checks 1, 4 and 5, by the symbols, the exposures and the answers.
unfoldable pub blockers_of :
    List ℕ → List ℕ → ℕ → ℕ → Option (List (List ℕ × ℕ)) → Margin → List Blocker
blockers_of d_sym e_sym d e account margin =
    symbol_blockers d_sym e_sym
    ++ block_if (spot_failed account) Blocker.spot_query_failed
    ++ block_if (is_low (spot_of account) d) Blocker.spot_capital_low
    ++ margin_blockers e_sym (spot_of account) d e margin

unfoldable pub checked : ℕ → BotConfig → BotConfig → Option (List (List ℕ × ℕ)) → Margin → HubHealth
checked now dorothy elphaba account margin =
    let d_sym = map upper dorothy.symbol in
    let e_sym = map upper elphaba.symbol in
    let d = exposure dorothy in
    let e = exposure elphaba in
    let spot = spot_of account in
    verdict (record {
      cleared = false;
      blockers = blockers_of d_sym e_sym d e account margin;
      spot_usdt_free = spot;
      margin_usdt_free = if is_no_text e_sym then 0 else margin_of margin;
      dorothy_exposure = d;
      elphaba_exposure = e;
      ts = now;
    })

-- `preflight`
unfoldable pub preflight :
    ℕ → BotConfig → BotConfig → Option (List (List ℕ × ℕ)) → Margin → Guard → Guard × HubHealth
preflight now dorothy elphaba account margin g =
    let h =
      if g.is_paused
      then record (new_health now) { blockers = Blocker.hub_paused ∷ [] }
      else checked now dorothy elphaba account margin in
    (record g { last_health = some h }, h)

-- `check_config_only`
unfoldable pub check_config_only : ℕ → BotConfig → BotConfig → Guard → HubHealth
check_config_only now dorothy elphaba g =
    if g.is_paused
    then record (new_health now) { blockers = Blocker.hub_paused ∷ [] }
    else verdict (record (new_health now) {
      blockers =
          block_if (not (same_codes (map upper dorothy.symbol) (map upper elphaba.symbol)))
            Blocker.symbol_mismatch;
      dorothy_exposure = exposure dorothy;
      elphaba_exposure = exposure elphaba;
    })
