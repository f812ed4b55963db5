-- ===== src/Alerts/Retry.antt =====
-- The attempts to post a message of runtime/core/alert_dispatcher.py.
use pecunator_accu_monetas.Prelude.{ℕ, ◌-◌, ◌≤◌, ◌≡◌, ◌↔◌, ◌⊎◌, Bool, true, false, arith}
use pecunator_accu_monetas.Alerts.Telegram.{Answer, post_from, post_with_retry}

-- An answer after which the next attempt is made: too many requests, or an exception.
abbrev pub is_retried : Answer → Bool
is_retried (Answer.limited retry_after) = true
is_retried Answer.raised = true
is_retried _ = false

abbrev pub is_ok : Answer → Bool
is_ok Answer.ok = true
is_ok _ = false

-- At most three posts are made. The message is delivered exactly if some attempt is answered with 200
-- and all before it are answered with 429 or raise, and then nothing is posted after it.
pub post_with_retry_exact :
    (answers : ℕ → Answer)
    → let o = post_with_retry answers in
      (o.posts ≤ 3)
      × ((o.delivered ≡ true) ↔ (
          (is_ok (answers 0) ≡ true)
          ⊎ ((is_retried (answers 0) ≡ true) × (is_ok (answers 1) ≡ true))
          ⊎ ((is_retried (answers 0) ≡ true)
              × (is_retried (answers 1) ≡ true)
              × (is_ok (answers 2) ≡ true))))
      × (o.delivered ≡ true → is_ok (answers (o.posts - 1)) ≡ true)
unfolding post_with_retry post_from
post_with_retry_exact answers = ground arith
