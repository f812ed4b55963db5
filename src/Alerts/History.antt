-- ===== src/Alerts/History.antt =====
-- The history of runtime/core/alert_dispatcher.py against the list of all its alerts.
use pecunator_accu_monetas.Prelude.{
  ℕ, ◌+◌, ◌≡◌, refl, ap, ◌∙◌, Bool, List, [], ◌∷◌, ◌++◌, arith, ◌==◌, if◌then◌else◌, min,
}
use pecunator_accu_monetas.Prelude.Slices.{
  skip, last_n, reversed, length-last_n, last_n-last_n, last_n-append_one, last_n-short,
}
use pecunator_accu_monetas.Alerts.Dispatcher.{
  Alert, Dispatcher, init, dispatch, remember, write_to_file, send_external, should_dedup, recent,
}

-- A call of the dispatcher: the alert, the clock at its check, and the time until it is noted.
pub record Call : Type 0 where
  pub alert : Alert
  pub now : ℕ
  pub delay : ℕ

abbrev pub apply : Call → Dispatcher → Dispatcher
apply c d = dispatch c.alert c.now (c.now + c.delay) d

-- A new dispatcher after calls, and the alerts of these calls; the newest call comes first.
abbrev pub run : Bool → List Call → Dispatcher
run has_log_file [] = init has_log_file
run has_log_file (c ∷ cs) = apply c (run has_log_file cs)

abbrev pub all_alerts : List Call → List Alert
all_alerts [] = []
all_alerts (c ∷ cs) = all_alerts cs ++ c.alert ∷ []

-- What a call leaves of the history.
dispatch_history :
    (a : Alert) (now now' : ℕ) (d : Dispatcher)
    → ((dispatch a now now' d).alerts ≡ last_n d.max_history (d.alerts ++ a ∷ []))
      × ((dispatch a now now' d).max_history ≡ d.max_history)
unfolding dispatch remember write_to_file send_external should_dedup
dispatch_history a now now' d =
    let short = last_n-short d.max_history (d.alerts ++ a ∷ []) in ground arith

-- The history of a dispatcher is the newest 100 of all its alerts.
pub history_is_last :
    (has_log_file : Bool) (cs : List Call)
    → ((run has_log_file cs).alerts ≡ last_n 100 (all_alerts cs))
      × ((run has_log_file cs).max_history ≡ 100)
unfolding init last_n skip
history_is_last has_log_file [] = (refl, refl)
history_is_last has_log_file (c ∷ cs) =
    let d = run has_log_file cs in
    let (before, size) = history_is_last has_log_file cs in
    let (after, size') = dispatch_history c.alert c.now (c.now + c.delay) d in
    (
      after
          ∙ ap (λ n. last_n n (d.alerts ++ c.alert ∷ [])) size
          ∙ ap (λ xs. last_n 100 (xs ++ c.alert ∷ [])) before
          ∙ last_n-append_one 100 (all_alerts cs) c.alert (omega arith),
      size' ∙ size,
    )

-- Whatever alerts a dispatcher was given, `recent` answers with the newest of them, the newest first: as
-- many as the limit, but at most 100, and 100 for the limit 0.
pub recent_is_newest :
    (has_log_file : Bool) (limit : ℕ) (cs : List Call)
    → recent limit (run has_log_file cs)
      ≡ reversed (last_n (if limit == 0 then 100 else min limit 100) (all_alerts cs))
unfolding recent
recent_is_newest has_log_file limit cs =
    let (history, size) = history_is_last has_log_file cs in
    let all = all_alerts cs in
    let within = last_n-last_n limit 100 all in
    let whole = last_n-short limit (last_n 100 all) in
    let short = length-last_n 100 all in ground arith
