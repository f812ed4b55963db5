-- ===== src/Coordinator/Launcher.antt =====
-- A round of `_launcher_loop` of runtime/core/bot_coordinator.py. What a callback answers, returning
-- or raising, is an argument.
use Prim.Native.String.{String}
use pecunator_accu_monetas.Prelude.{
  ℕ, ◌*◌, Bool, false, ◌&&◌, ◌||◌, List, [], ◌∷◌, leb, keep_if, if◌then◌else◌,
}
use pecunator_accu_monetas.Prelude.Dict.{same, insert, erase}
use pecunator_accu_monetas.Coordinator.State.{Status, StagedBot, Coordinator, register_active}
use pecunator_accu_monetas.Coordinator.Delay.{is_staged}

-- `s.status == "STAGED" and now >= s.launch_at`
abbrev pub is_ready : ℕ → StagedBot → Bool
is_ready now s = is_staged s.status && leb s.launch_at.num (now * s.launch_at.den)

unfoldable pub has_callback : String → List String → Bool
has_callback hub [] = false
has_callback hub (h ∷ hs) = same h hub || has_callback hub hs

-- The body of the loop over the ready bots.
unfoldable pub launch : (String → Bool) → ℕ → StagedBot → Coordinator → Coordinator
launch answers now s c =
    let gone : Coordinator = record c { staged = erase s.bot_id c.staged } in
    if has_callback s.hub_type c.callbacks
    then (if answers s.bot_id then register_active s.bot_id s.loop_interval 15 now gone else gone)
    else record c { staged = insert s.bot_id (record s { status = Status.launching }) c.staged }

unfoldable pub launch_all :
    (String → Bool) → ℕ → List (String × StagedBot) → Coordinator → Coordinator
launch_all answers now [] c = c
launch_all answers now ((k, s) ∷ ss) c = launch_all answers now ss (launch answers now s c)

-- A round: the ready bots are listed first.
unfoldable pub launcher_round : (String → Bool) → ℕ → Coordinator → Coordinator
launcher_round answers now c = launch_all answers now (keep_if (λ e. is_ready now e.1) c.staged) c
