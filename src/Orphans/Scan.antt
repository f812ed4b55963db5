-- ===== src/Orphans/Scan.antt =====
-- `scan_dorothy_orphans` and `scan_elphaba_orphans` of runtime/core/orphan_guard.py. The answers of
-- the client are arguments, `none` for a call that raises; texts are lists of code points, amounts
-- exact fractions. The times of detection and the log lines are not modelled.
use pecunator_accu_monetas.Prelude.{
  ℕ, Bool, true, false, not, ◌&&◌, Option, none, some, List, [], ◌∷◌, map, ◌==◌, if◌then◌else◌,
  keep_if,
}
use pecunator_accu_monetas.Prelude.Frac.{Frac, of_ℕ, add, div, is_pos, ltb_frac}
use pecunator_accu_monetas.Prelude.Codes.{same_codes, upper}
use pecunator_accu_monetas.BudgetGuard.{is_prefix}

pub data Side : Type 0 where
  buy sell : Side

-- An open order; the type is LIMIT or another one.
pub record OpenOrder : Type 0 where
  pub side : Side
  pub is_limit : Bool
  pub client_order_id : List ℕ

pub record Balance : Type 0 where
  pub asset : List ℕ
  pub free : Frac

-- The base asset of an isolated pair.
pub record Pair : Type 0 where
  pub borrowed : Frac
  pub interest : Frac

pub data Orphan : Type 0 where
  dorothy_orphan : List ℕ → Frac → Orphan
  elphaba_orphan : List ℕ → Frac → Frac → Orphan

-- `symbol.replace("USDT", "")`
unfoldable pub remove_usdt : List ℕ → List ℕ
remove_usdt [] = []
remove_usdt (a ∷ []) = a ∷ []
remove_usdt (a ∷ b ∷ []) = a ∷ b ∷ []
remove_usdt (a ∷ b ∷ c ∷ []) = a ∷ b ∷ c ∷ []
remove_usdt (a ∷ b ∷ c ∷ d ∷ s) =
    let without = remove_usdt s in
    let rest = remove_usdt (b ∷ c ∷ d ∷ s) in
    if a == b'U' && b == b'S' && c == b'D' && d == b'T' then without else a ∷ rest

abbrev pub is_side : Side → Side → Bool
is_side Side.buy Side.buy = true
is_side Side.sell Side.sell = true
is_side _ _ = false

-- The limit orders of a side that carry the bot's tag.
unfoldable pub tagged : Side → List ℕ → List OpenOrder → List OpenOrder
tagged side tag =
    keep_if (λ o. is_side o.side side && o.is_limit && is_prefix tag o.client_order_id)

abbrev pub is_empty {ℓ} : {A : Type ℓ} → List A → Bool
is_empty [] = true
is_empty (x ∷ xs) = false

-- The free amount of the first balance of an asset.
unfoldable pub free_of : List ℕ → List Balance → Frac
free_of asset [] = of_ℕ 0
free_of asset (b ∷ bs) =
    let rest = free_of asset bs in if same_codes (map upper b.asset) asset then b.free else rest

-- `scan_dorothy_orphans`
unfoldable pub scan_dorothy_orphans :
    List ℕ → List ℕ → Frac → Option (List OpenOrder) → Option (List Balance) → List Orphan
scan_dorothy_orphans symbol tag quote_order_qty none account = []
scan_dorothy_orphans symbol tag quote_order_qty (some orders) none = []
scan_dorothy_orphans symbol tag quote_order_qty (some orders) (some balances) =
    let free = free_of (remove_usdt symbol) balances in
    if ltb_frac (div quote_order_qty (of_ℕ 1000)) free && is_empty (tagged Side.sell tag orders)
    then Orphan.dorothy_orphan symbol free ∷ []
    else []

-- The debt of the first pair, if there is one.
unfoldable pub scan_debt : List ℕ → List ℕ → Pair → Option (List OpenOrder) → List Orphan
scan_debt symbol tag pair orders =
    if not (is_pos (add pair.borrowed pair.interest)) then [] else elim orders [
      | none ↦ []
      | some os ↦
          if is_empty (tagged Side.buy tag os)
          then Orphan.elphaba_orphan symbol pair.borrowed pair.interest ∷ []
          else []
    ]

-- `scan_elphaba_orphans`
unfoldable pub scan_elphaba_orphans :
    List ℕ → List ℕ → Option (List Pair) → Option (List OpenOrder) → List Orphan
scan_elphaba_orphans symbol tag none orders = []
scan_elphaba_orphans symbol tag (some []) orders = []
scan_elphaba_orphans symbol tag (some (pair ∷ pairs)) orders = scan_debt symbol tag pair orders
