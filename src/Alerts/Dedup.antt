-- ===== src/Alerts/Dedup.antt =====
-- The window of repeated alerts of runtime/core/alert_dispatcher.py.
use pecunator_accu_monetas.Prelude.{
  ℕ, ◌+◌, ◌≤◌, ◌≡◌, ◌⊎◌, inl, inr, ap, sym, ◌∙◌, Bool, true, List, [], ◌∷◌, arith, Bool-cases, some,
  get_or, All, All-map,
}
use pecunator_accu_monetas.Prelude.Codes.{
  same_codes, same_codes_eq, find, put, find-put_self, find-put_other,
}
use pecunator_accu_monetas.Alerts.Dispatcher.{
  Alert, Sent, Dispatcher, init, dispatch, remember, write_to_file, send_external, should_dedup,
  key_of, dedup_window,
}
use pecunator_accu_monetas.Alerts.History.{Call, apply, run}

-- When a message with a key was noted the last time; 0 if never.
abbrev pub last_noted : List ℕ → Dispatcher → ℕ
last_noted key d = get_or (find key d.dedup_cache) 0

-- A later message is at least the window after an earlier one with the same key.
abbrev pub IsApart : Sent → Sent → Type 0
IsApart later earlier =
    same_codes earlier.key later.key ≡ true → earlier.noted_at + dedup_window ≤ later.checked_at

abbrev pub AllApart : List Sent → Type 0
AllApart [] = Unit
AllApart (s ∷ ss) = All (IsApart s) ss × AllApart ss

-- The cache knows of every message.
abbrev pub IsNoted : Dispatcher → Sent → Type 0
IsNoted d s = s.noted_at ≤ last_noted s.key d

-- A call either sends nothing and keeps the cache, or it sends one message, at least the window after
-- the last one of its key, and notes it.
dispatch_cases :
    (a : Alert) (now now' : ℕ) (d : Dispatcher)
    → let d' = dispatch a now now' d in
      ((d'.sent ≡ d.sent) × (d'.dedup_cache ≡ d.dedup_cache))
      ⊎ ((d'.sent ≡ record { key = key_of a; checked_at = now; noted_at = now' } ∷ d.sent)
          × (d'.dedup_cache ≡ put (key_of a) now' d.dedup_cache)
          × (last_noted (key_of a) d + dedup_window ≤ now))
unfolding dispatch remember write_to_file send_external should_dedup
dispatch_cases a now now' d = ground arith

-- A message that was noted stays noted when a later one is.
noted_after_put :
    (key : List ℕ) (now' : ℕ) (cache : List (List ℕ × ℕ)) (s : Sent)
    → get_or (find key cache) 0 ≤ now'
    → s.noted_at ≤ get_or (find s.key cache) 0
    → s.noted_at ≤ get_or (find s.key (put key now' cache)) 0
noted_after_put key now' cache s later noted = elim (Bool-cases (same_codes key s.key)) [
  | inr apart ↦ let kept = find-put_other key s.key now' cache apart in rw (kept) noted
  | inl same ↦
      let e : key ≡ s.key = same_codes_eq key s.key same in
      let found : find s.key (put key now' cache) ≡ some now' =
        ap (λ k. find k (put key now' cache)) (sym e) ∙ find-put_self key now' cache in
      let bound : get_or (find s.key cache) 0 ≤ now' = rw (sym e) later in
      rw (found) (omega (arith, noted, bound))
]

-- What every dispatcher has: its messages are apart and noted.
abbrev pub IsWindowed : Dispatcher → Type 0
IsWindowed d = AllApart d.sent × All (IsNoted d) d.sent

-- An earlier message that is noted is apart from one that the window lets through.
IsApart-of_noted :
    (key : List ℕ) (now now' : ℕ) (d : Dispatcher) (s : Sent)
    → last_noted key d + dedup_window ≤ now
    → IsNoted d s
    → IsApart (record { key = key; checked_at = now; noted_at = now' }) s
IsApart-of_noted key now now' d s past noted same =
    let e : s.key ≡ key = same_codes_eq s.key key same in
    let bound : s.noted_at ≤ last_noted key d = rw (sym e) noted in omega (arith, bound, past)

send_windowed :
    (key : List ℕ) (now delay : ℕ) (d d' : Dispatcher)
    → d'.sent ≡ record { key = key; checked_at = now; noted_at = now + delay } ∷ d.sent
    → d'.dedup_cache ≡ put key (now + delay) d.dedup_cache
    → last_noted key d + dedup_window ≤ now
    → IsWindowed d
    → IsWindowed d'
send_windowed key now delay d d' sent cache past (apart, noted) =
    let s : Sent = record { key = key; checked_at = now; noted_at = now + delay } in
    let later : last_noted key d ≤ now + delay = omega (arith, past) in
    let itself : find key (put key (now + delay) d.dedup_cache) ≡ some (now + delay) =
      find-put_self key (now + delay) d.dedup_cache in
    let itself_noted : IsNoted d' s = rw (cache, itself) (omega arith) in
    let others : All (IsNoted d') d.sent =
      All-map (IsNoted d) (IsNoted d') d.sent
        (λ t h. rw (cache) (noted_after_put key (now + delay) d.dedup_cache t later h)) noted in
    let apart' : All (IsApart s) d.sent =
      All-map (IsNoted d) (IsApart s) d.sent
        (λ t h. IsApart-of_noted key now (now + delay) d t past h) noted in
    let all_apart : AllApart (s ∷ d.sent) = (apart', apart) in
    let all_noted : All (IsNoted d') (s ∷ d.sent) = (itself_noted, others) in
    (rw (sent) all_apart, rw (sent) all_noted)

quiet_windowed :
    (d d' : Dispatcher)
    → d'.sent ≡ d.sent
    → d'.dedup_cache ≡ d.dedup_cache
    → IsWindowed d
    → IsWindowed d'
quiet_windowed d d' sent cache (apart, noted) =
    let noted' : All (IsNoted d') d.sent =
      All-map (IsNoted d) (IsNoted d') d.sent (λ t h. rw (cache) h) noted in
    (rw (sent) apart, rw (sent) noted')

run-IsWindowed : (has_log_file : Bool) (cs : List Call) → IsWindowed (run has_log_file cs)
unfolding init
run-IsWindowed has_log_file [] = (tt, tt)
run-IsWindowed has_log_file (c ∷ cs) =
    let d = run has_log_file cs in
    let before = run-IsWindowed has_log_file cs in
    elim (dispatch_cases c.alert c.now (c.now + c.delay) d) [
      | inl (sent, cache) ↦ quiet_windowed d (apply c d) sent cache before
      | inr (sent, cache, past) ↦
          send_windowed (key_of c.alert) c.now c.delay d (apply c d) sent cache past before
    ]

-- Whatever alerts a dispatcher is given, and even if the clock is set back between them: of any two
-- messages with the same level and code that go to the external channels, the later one is let through at
-- least 300 seconds after the earlier one was noted.
pub sends_apart : (has_log_file : Bool) (cs : List Call) → AllApart (run has_log_file cs).sent
sends_apart has_log_file cs = let (apart, noted) = run-IsWindowed has_log_file cs in apart
