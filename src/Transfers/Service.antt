-- ===== src/Transfers/Service.antt =====
-- `fund_bot` and `withdraw_from_bot` of runtime/core/transfer_service.py, over the API governor. The signed
-- request is one post, whose reply is an argument; its latency, the log lines, the texts of errors and the
-- register of exceptions are not modelled.
use Prim.Native.String.{String}
use pecunator_accu_monetas.Prelude.{
  ℕ, ◌+◌, ◌*◌, Bool, true, false, not, ◌&&◌, Option, none, some, List, ◌∷◌, map, ltb, if◌then◌else◌,
}
use pecunator_accu_monetas.Prelude.Frac.{Frac, Signed, is_pos}
use pecunator_accu_monetas.Prelude.Dict.{Dict, lookup}
use pecunator_accu_monetas.Prelude.Codes.{same_codes, upper}
use pecunator_accu_monetas.BudgetGuard.{codes}
use pecunator_accu_monetas.ApiGovernor.{Governor, Token, request_token, record_usage}

-- The text of an amount, as `float` reads it; `unreadable` raises a ValueError.
pub data Amount : Type 0 where
  unreadable not_a_number : Amount
  number : Signed → Amount

-- An account of the registry; `none` is a limit that `float` does not read.
pub record Account : Type 0 where
  pub email : String
  pub enabled : Bool
  pub max_equity : Option Frac

-- A post to the exchange: an amount of an asset to or from an account.
pub data Post : Type 0 where
  to_account : String → List ℕ → Amount → Post
  from_account : String → List ℕ → Amount → Post

-- The reply: 200 with a body, 200 without one that can be read, another status, or an exception.
pub data Reply : Type 0 where
  ok bad_body refused raised : Reply

pub data Result : Type 0 where
  unknown_bot disabled over_limit denied dry_run_ok done failed : Result

pub data Decision : Type 0 where
  fund : String → Amount → Decision
  withdraw : String → Amount → Decision

pub record World : Type 0 where
  pub registry : Dict Account
  pub governor : Governor
  pub posts : List Post
  pub decisions : List Decision

-- The readings of the clocks, and whether the governor's database takes its row.
pub record Moment : Type 0 where
  pub today : ℕ
  pub asked : ℕ
  pub answered : ℕ
  pub db_ok : Bool

abbrev pub transfer_weight : ℕ
transfer_weight = 1

-- `float(amount) > max_eq`
unfoldable pub exceeds : Amount → Frac → Bool
exceeds (Amount.number s) m = ltb (m.num * s.over + s.minus * m.den) (s.plus * m.den)
exceeds _ m = false

-- The check of the limit; a number that cannot be read passes.
unfoldable pub is_over_limit : Account → List ℕ → Amount → Bool
is_over_limit acct asset amount = elim acct.max_equity [
  | none ↦ false
  | some m ↦ is_pos m && same_codes (map upper asset) (codes "USDT") && exceeds amount m
]

-- What follows the reply: the call is recorded unless the post raised, and then the decision.
unfoldable pub after_reply : Reply → Post → Decision → Moment → World → World × Result
after_reply reply post decision m w =
    let sent : World = record w { posts = post ∷ w.posts } in
    let count : Bool → World = λ success. record sent {
      governor =
          record_usage "binance" transfer_weight success m.db_ok m.today m.answered w.governor;
    } in
    elim reply [
      | Reply.raised ↦ (sent, Result.failed)
      | Reply.refused ↦ (count false, Result.failed)
      | Reply.bad_body ↦ (count true, Result.failed)
      | Reply.ok ↦ (record (count true) { decisions = decision ∷ w.decisions }, Result.done)
    ]

abbrev pub is_allowed : Token → Bool
is_allowed Token.allowed = true
is_allowed _ = false

-- From the governor's token on.
unfoldable pub transfer : Bool → Reply → Post → Decision → Moment → World → World × Result
transfer dry_run reply post decision m w =
    let (g, token) = request_token "binance" transfer_weight m.today m.asked w.governor in
    let w' : World = record w { governor = g } in
    if not (is_allowed token)
    then (w', Result.denied)
    else if dry_run
    then (w', Result.dry_run_ok)
    else after_reply reply post decision m w'

-- `fund_bot`
unfoldable pub fund_bot : String → List ℕ → Amount → Bool → Reply → Moment → World → World × Result
fund_bot bot_id asset amount dry_run reply m w = elim (lookup bot_id w.registry) [
  | none ↦ (w, Result.unknown_bot)
  | some acct ↦
      if not acct.enabled
      then (w, Result.disabled)
      else if is_over_limit acct asset amount
      then (w, Result.over_limit)
      else transfer dry_run reply (Post.to_account acct.email (map upper asset) amount)
          (Decision.fund bot_id amount) m w
]

-- `withdraw_from_bot`
unfoldable pub withdraw_from_bot :
    String → List ℕ → Amount → Bool → Reply → Moment → World → World × Result
withdraw_from_bot bot_id asset amount dry_run reply m w = elim (lookup bot_id w.registry) [
  | none ↦ (w, Result.unknown_bot)
  | some acct ↦
      transfer dry_run reply (Post.from_account acct.email (map upper asset) amount)
        (Decision.withdraw bot_id amount) m w
]
