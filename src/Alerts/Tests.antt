-- ===== src/Alerts/Tests.antt =====
-- The dispatcher of runtime/core/alert_dispatcher.py on three alerts.
use pecunator_accu_monetas.Prelude.{
  ℕ, ◌≡◌, refl, true, false, List, [], ◌∷◌, map, min, ◌==◌, if◌then◌else◌,
}
use pecunator_accu_monetas.Prelude.Codes.{same_codes, find, put}
use pecunator_accu_monetas.BudgetGuard.{codes}
use pecunator_accu_monetas.Prelude.Slices.{skip, last_n, reversed}
use pecunator_accu_monetas.Alerts.Dispatcher.{
  Level, Alert, init, dispatch, remember, write_to_file, send_external, should_dedup, key_of,
  recent,
}
use pecunator_accu_monetas.Alerts.Telegram.{Answer, post_with_retry, post_from}
use pecunator_accu_monetas.Alerts.History.{Call, run, all_alerts, recent_is_newest}
use pecunator_accu_monetas.Alerts.Dedup.{AllApart, sends_apart}

abbrev trip : Alert
trip = record { level = Level.critical; code = codes "FUSE"; message = []; silent = false }

abbrev quiet : Alert
quiet = record trip { silent = true }

-- The same alert at 1000, 1200 and 1301 seconds, and a silent one, the newest first.
abbrev calls : List Call
calls =
    record { alert = quiet; now = 1900000; delay = 0 }
    ∷ record { alert = trip; now = 1301000; delay = 0 }
    ∷ record { alert = trip; now = 1200000; delay = 0 }
    ∷ record { alert = trip; now = 1000000; delay = 1000 }
    ∷ []

sent_run : map (λ s. s.checked_at) (run true calls).sent ≡ 1301000 ∷ 1000000 ∷ []
unfolding init dispatch remember write_to_file send_external should_dedup key_of find put same_codes
sent_run = refl

recent-run : recent 1 (run true calls) ≡ quiet ∷ []
unfolding init dispatch remember write_to_file send_external should_dedup key_of find put same_codes
    recent last_n skip reversed
recent-run = refl

-- Too many requests, and then the answer 200.
abbrev answers : ℕ → Answer
answers n = if n == 0 then Answer.limited 7 else Answer.ok

post_run : (post_with_retry answers).slept ≡ 7
unfolding post_with_retry post_from
post_run = refl

recent_is_newest_example :
    recent 1 (run true calls)
    ≡ reversed (last_n (if 1 == 0 then 100 else min 1 100) (all_alerts calls))
recent_is_newest_example = recent_is_newest true 1 calls

sends_apart_example : AllApart (run true calls).sent
sends_apart_example = sends_apart true calls
