-- ===== src/Alerts/Dispatcher.antt =====
-- `AlertDispatcher` of runtime/core/alert_dispatcher.py. Texts are lists of code points; clocks are whole
-- milliseconds. The payload and the date of an alert, the log lines and the summary are not modelled;
-- `written` and `sent` are what the file and the external channels were given, the newest first.
use pecunator_accu_monetas.Prelude.{
  ℕ, ◌+◌, Bool, true, false, List, [], ◌∷◌, ◌++◌, ltb, ◌==◌, if◌then◌else◌, length, get_or,
}
use pecunator_accu_monetas.Prelude.Slices.{last_n, reversed}
use pecunator_accu_monetas.Prelude.Codes.{find, put}
use pecunator_accu_monetas.BudgetGuard.{codes}

pub data Level : Type 0 where
  critical warning info : Level

abbrev pub level_name : Level → List ℕ
level_name Level.critical = codes "CRITICAL"
level_name Level.warning = codes "WARNING"
level_name Level.info = codes "INFO"

pub record Alert : Type 0 where
  pub level : Level
  pub code : List ℕ
  pub message : List ℕ
  pub silent : Bool

-- A message to the external channels: its key, and the readings of the clock at which it was let
-- through and at which that was noted.
pub record Sent : Type 0 where
  pub key : List ℕ
  pub checked_at : ℕ
  pub noted_at : ℕ

-- `_alerts` has the oldest first.
pub record Dispatcher : Type 0 where
  pub alerts : List Alert
  pub max_history : ℕ
  pub has_log_file : Bool
  pub dedup_cache : List (List ℕ × ℕ)
  pub written : List Alert
  pub sent : List Sent

abbrev pub dedup_window : ℕ
dedup_window = 300000

-- `__init__`
unfoldable pub init : Bool → Dispatcher
init has_log_file = record {
  alerts = [];
  max_history = 100;
  has_log_file = has_log_file;
  dedup_cache = [];
  written = [];
  sent = [];
}

-- `f"{level}:{code}"`
unfoldable pub key_of : Alert → List ℕ
key_of a = level_name a.level ++ b':' ∷ a.code

-- `_should_dedup`, with its two readings of the clock.
unfoldable pub should_dedup : List ℕ → ℕ → ℕ → Dispatcher → Dispatcher × Bool
should_dedup key now now' d =
    if ltb now (get_or (find key d.dedup_cache) 0 + dedup_window)
    then (d, true)
    else (record d { dedup_cache = put key now' d.dedup_cache }, false)

-- The alert in the history, cut to its newest.
unfoldable pub remember : Alert → Dispatcher → Dispatcher
remember a d =
    let all = d.alerts ++ a ∷ [] in
    record d { alerts = if ltb d.max_history (length all) then last_n d.max_history all else all }

-- `_write_to_file`, for a file that can be written.
unfoldable pub write_to_file : Alert → Dispatcher → Dispatcher
write_to_file a d = if d.has_log_file then record d { written = a ∷ d.written } else d

-- What goes to the external channels.
unfoldable pub send_external : Alert → ℕ → ℕ → Dispatcher → Dispatcher
send_external a now now' d =
    let (d', deduplicated) = should_dedup (key_of a) now now' d in
    if deduplicated
    then d'
    else record d' { sent = record { key = key_of a; checked_at = now; noted_at = now' } ∷ d'.sent }

-- `_dispatch`
unfoldable pub dispatch : Alert → ℕ → ℕ → Dispatcher → Dispatcher
dispatch a now now' d =
    let kept = write_to_file a (remember a d) in
    if a.silent then kept else send_external a now now' kept

-- `recent`: a limit of 0 takes all, since `-0` is 0.
unfoldable pub recent : ℕ → Dispatcher → List Alert
recent limit d = reversed (if limit == 0 then d.alerts else last_n limit d.alerts)
