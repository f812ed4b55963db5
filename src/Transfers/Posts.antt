-- ===== src/Transfers/Posts.antt =====
-- When runtime/core/transfer_service.py posts a transfer, and what the governor counts of it.
use Prim.Native.String.{String}
use pecunator_accu_monetas.Prelude.{
  ℕ, zero, suc, ◌+◌, ◌≡◌, ◌↔◌, ap, ◌∙◌, Bool, true, false, not, ◌&&◌, some, List, ◌∷◌, map, arith,
  length, if◌then◌else◌,
}
use pecunator_accu_monetas.Prelude.Dict.{lookup}
use pecunator_accu_monetas.Prelude.Codes.{upper}
use pecunator_accu_monetas.ApiGovernor.{Token, request_token}
use pecunator_accu_monetas.ApiGovernor.Races.{request_token_twice}
use pecunator_accu_monetas.Transfers.Service.{
  Amount, Account, Post, Reply, Result, World, Moment, transfer_weight, is_over_limit, is_allowed,
  after_reply, transfer, fund_bot,
}

-- The token that a transfer asks for.
abbrev pub token_at : Moment → World → Token
token_at m w = (request_token "binance" transfer_weight m.today m.asked w.governor).1

-- `fund_bot` posts only to an account of the registry that is enabled, where the amount is not over the
-- limit and the governor gives a token, and not on a dry run. Then it posts the amount to the account once,
-- whatever the reply is; otherwise it posts nothing. It reports success exactly if it posts and the reply
-- is good.
pub fund_bot_posts :
    (bot_id : String) (asset : List ℕ) (amount : Amount) (dry_run : Bool) (reply : Reply)
    (m : Moment) (w : World) (acct : Account)
    → lookup bot_id w.registry ≡ some acct
    → let w' = (fund_bot bot_id asset amount dry_run reply m w).0 in
      let may_post =
        acct.enabled
        && not (is_over_limit acct asset amount)
        && is_allowed (token_at m w)
        && not dry_run in
      ((w'.posts ≡ (
          if may_post
          then Post.to_account acct.email (map upper asset) amount ∷ w.posts
          else w.posts))
        × (((fund_bot bot_id asset amount dry_run reply m w).1 ≡ Result.done)
            ↔ ((may_post ≡ true) × (reply ≡ Reply.ok))))
unfolding fund_bot transfer after_reply
fund_bot_posts bot_id asset amount dry_run reply m w acct h = ground arith

-- The same funding, posted again and again at one reading of the clocks, each post raising.
abbrev pub fund_again : ℕ → String → List ℕ → Amount → Moment → World → World
fund_again zero bot_id asset amount m w = w
fund_again (suc n) bot_id asset amount m w =
    fund_again n bot_id asset amount m (fund_bot bot_id asset amount false Reply.raised m w).0

raised_step :
    (bot_id : String) (asset : List ℕ) (amount : Amount) (m : Moment) (w : World) (acct : Account)
    → lookup bot_id w.registry ≡ some acct
    → acct.enabled ≡ true
    → is_over_limit acct asset amount ≡ false
    → is_allowed (token_at m w) ≡ true
    → let w' = (fund_bot bot_id asset amount false Reply.raised m w).0 in
      (w'.registry ≡ w.registry)
      × (w'.governor ≡ (request_token "binance" transfer_weight m.today m.asked w.governor).0)
      × (length w'.posts ≡ length w.posts + 1)
unfolding fund_bot transfer after_reply
raised_step bot_id asset amount m w acct h on within allowed = ground arith

-- A transfer whose post raises, as on a timeout, is posted and not recorded. So where the governor gives a
-- token for one transfer, any number of them that all raise is posted at the same reading of the clocks,
-- past every budget of the service.
pub raised_never_counted :
    (n : ℕ) (bot_id : String) (asset : List ℕ) (amount : Amount) (m : Moment) (w : World)
    (acct : Account)
    → lookup bot_id w.registry ≡ some acct
    → acct.enabled ≡ true
    → is_over_limit acct asset amount ≡ false
    → is_allowed (token_at m w) ≡ true
    → length (fund_again n bot_id asset amount m w).posts ≡ length w.posts + n
raised_never_counted zero bot_id asset amount m w acct h on within allowed = omega arith
raised_never_counted (suc n) bot_id asset amount m w acct h on within allowed =
    let w' = (fund_bot bot_id asset amount false Reply.raised m w).0 in
    let (registry, governor, posts) =
      raised_step bot_id asset amount m w acct h on within allowed in
    let again : is_allowed (token_at m w') ≡ true =
      ap (λ g. is_allowed (request_token "binance" transfer_weight m.today m.asked g).1) governor
      ∙ ap is_allowed (request_token_twice "binance" transfer_weight m.today m.asked w.governor)
      ∙ allowed in
    let rest =
      raised_never_counted n bot_id asset amount m w' acct (ap (lookup bot_id) registry ∙ h) on
        within again in
    omega (arith, rest, posts)
