-- ===== src/Alerts/Telegram.antt =====
-- `_send_telegram_async` of runtime/core/alert_dispatcher.py: the attempts to post one message. What
-- the server answers to each attempt is an argument; a pause is in whole seconds.
use pecunator_accu_monetas.Prelude.{ℕ, zero, suc, ◌+◌, ◌^◌, Bool, true, false, ltb, if◌then◌else◌}

-- The status 200; 429 with its Retry-After; another status; or an exception.
pub data Answer : Type 0 where
  ok refused raised : Answer
  limited : ℕ → Answer

-- The posts made, the seconds slept, and whether the message was taken.
pub record Outcome : Type 0 where
  pub posts : ℕ
  pub slept : ℕ
  pub delivered : Bool

abbrev pub after_post : ℕ → Outcome → Outcome
after_post pause o = record o { posts = o.posts + 1; slept = pause + o.slept }

-- The attempts from one on, for as many as are left.
unfoldable pub post_from : (ℕ → Answer) → ℕ → ℕ → Outcome
post_from answers attempt zero = record { posts = 0; slept = 0; delivered = false }
post_from answers attempt (suc left) =
    let rest = post_from answers (attempt + 1) left in
    elim (answers attempt) [
      | Answer.ok ↦ record { posts = 1; slept = 0; delivered = true }
      | Answer.limited retry_after ↦ after_post retry_after rest
      | Answer.refused ↦ record { posts = 1; slept = 0; delivered = false }
      | Answer.raised ↦ after_post (if ltb attempt 2 then 2 ^ (attempt + 1) else 0) rest
    ]

-- `_post_with_retry`
unfoldable pub post_with_retry : (ℕ → Answer) → Outcome
post_with_retry answers = post_from answers 0 3
