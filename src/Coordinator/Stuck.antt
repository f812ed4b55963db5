-- ===== src/Coordinator/Stuck.antt =====
-- A staged bot whose hub has no callback, in `_launcher_loop` of runtime/core/bot_coordinator.py.
use Prim.Native.String.{String}
use pecunator_accu_monetas.Prelude.{
  ℕ, ◌≡◌, refl, ◌∙◌, ap, Bool, true, false, none, some, List, [], ◌∷◌, arith, All, Bool-cases, inl,
  inr, keep_if,
}
use pecunator_accu_monetas.Prelude.Dict.{
  Dict, same, same_iff_refl, lookup, insert, erase, lookup-insert, lookup-erase_ne, IsDistinct,
  insert-IsDistinct, erase-IsDistinct,
}
use pecunator_accu_monetas.Coordinator.State.{
  Status, StagedBot, Coordinator, register_active, register_callback,
}
use pecunator_accu_monetas.Coordinator.Delay.{is_staged}
use pecunator_accu_monetas.Coordinator.Launcher.{
  is_ready, has_callback, launch, launch_all, launcher_round,
}
use text.Mathlib.TextEquality.{eq_iff}

-- The entries of a dict of staged bots stand under the bots' own ids, each once.
abbrev pub IsKeyed : Dict StagedBot → Type 0
IsKeyed d = IsDistinct d × All (λ e. same e.1.bot_id e.0 ≡ true) d

-- Another bot's launch does not touch the entry of a bot.
launch_apart :
    (answers : String → Bool) (now : ℕ) (b : String) (s : StagedBot) (c : Coordinator)
    → same s.bot_id b ≡ false
    → lookup b (launch answers now s c).staged ≡ lookup b c.staged
unfolding launch register_active
launch_apart answers now b s c h =
    let erased = lookup-erase_ne s.bot_id b c.staged h in
    let inserted = lookup-insert s.bot_id b (record s { status = Status.launching }) c.staged in
    ground arith

launch_all_apart :
    (answers : String → Bool) (now : ℕ) (b : String) (ss : Dict StagedBot) (c : Coordinator)
    → All (λ e. same e.1.bot_id b ≡ false) ss
    → lookup b (launch_all answers now ss c).staged ≡ lookup b c.staged
unfolding launch_all
launch_all_apart answers now b [] c h = refl
launch_all_apart answers now b ((k, s) ∷ ss) c (h, hs) =
    launch_all_apart answers now b ss (launch answers now s c) hs ∙ launch_apart answers now b s c h

-- No key of the dict is `b`.
absent_apart :
    (now : ℕ) (b : String) (d : Dict StagedBot)
    → All (λ e. same e.1.bot_id e.0 ≡ true) d
    → lookup b d ≡ none
    → All (λ e. same e.1.bot_id b ≡ false) (keep_if (λ e. is_ready now e.1) d)
unfolding lookup
absent_apart now b [] keyed h = tt
absent_apart now b ((k, s) ∷ d) (key, keyed) h =
    ground (arith, absent_apart now b d keyed, eq_iff s.bot_id k, eq_iff s.bot_id b)

ready_apart :
    (now : ℕ) (b : String) (s : StagedBot) (d : Dict StagedBot)
    → IsKeyed d
    → lookup b d ≡ some s
    → is_staged s.status ≡ false
    → All (λ e. same e.1.bot_id b ≡ false) (keep_if (λ e. is_ready now e.1) d)
unfolding lookup
ready_apart now b s [] keyed h idle = cc
ready_apart now b s ((k, t) ∷ d) ((fresh, distinct), (key, keyed)) h idle = ground (
  arith,
  absent_apart now b d keyed,
  ready_apart now b s d (distinct, keyed),
  eq_iff t.bot_id k,
  eq_iff t.bot_id b,
  eq_iff k b,
)

AreOwn : Dict StagedBot → Type 0
AreOwn = All (λ e. same e.1.bot_id e.0 ≡ true)

insert-AreOwn : (s : StagedBot) (d : Dict StagedBot) → AreOwn d → AreOwn (insert s.bot_id s d)
unfolding insert AreOwn
insert-AreOwn s [] h = (same_iff_refl s.bot_id, tt)
insert-AreOwn s ((k, t) ∷ d) (key, keyed) =
    let self = same_iff_refl s.bot_id in ground (arith, insert-AreOwn s d keyed)

erase-AreOwn : (b : String) (d : Dict StagedBot) → AreOwn d → AreOwn (erase b d)
unfolding erase AreOwn
erase-AreOwn b [] h = tt
erase-AreOwn b ((k, t) ∷ d) (key, keyed) = ground (arith, erase-AreOwn b d keyed)

launch-IsKeyed :
    (answers : String → Bool) (now : ℕ) (s : StagedBot) (c : Coordinator)
    → IsKeyed c.staged
    → IsKeyed (launch answers now s c).staged
unfolding launch register_active AreOwn
launch-IsKeyed answers now s c (distinct, own) =
    let t : StagedBot = record s { status = Status.launching } in
    let erased : IsKeyed (erase s.bot_id c.staged) =
      (erase-IsDistinct s.bot_id c.staged distinct, erase-AreOwn s.bot_id c.staged own) in
    let kept : IsKeyed (insert s.bot_id t c.staged) =
      (insert-IsDistinct s.bot_id t c.staged distinct, insert-AreOwn t c.staged own) in
    elim (Bool-cases (has_callback s.hub_type c.callbacks)) [
      | inr e ↦ rw (e) kept
      | inl e ↦ elim (Bool-cases (answers s.bot_id)) [
        | inl a ↦ rw (e, a) erased
        | inr a ↦ rw (e, a) erased
      ]
    ]

launch_all-IsKeyed :
    (answers : String → Bool) (now : ℕ) (ss : Dict StagedBot) (c : Coordinator)
    → IsKeyed c.staged
    → IsKeyed (launch_all answers now ss c).staged
unfolding launch_all
launch_all-IsKeyed answers now [] c h = h
launch_all-IsKeyed answers now ((k, s) ∷ ss) c h =
    launch_all-IsKeyed answers now ss (launch answers now s c) (launch-IsKeyed answers now s c h)

-- A later round, after the callbacks of some more hubs have been registered.
pub record Round : Type 0 where
  pub new_hubs : List String
  pub answers : String → Bool
  pub at : ℕ

abbrev pub register_all : List String → Coordinator → Coordinator
register_all [] c = c
register_all (h ∷ hs) c = register_all hs (register_callback h c)

register_all-staged : (hs : List String) (c : Coordinator) → (register_all hs c).staged ≡ c.staged
unfolding register_callback
register_all-staged [] c = refl
register_all-staged (h ∷ hs) c = register_all-staged hs (register_callback h c)

abbrev pub rounds : List Round → Coordinator → Coordinator
rounds [] c = c
rounds (r ∷ rs) c = rounds rs (launcher_round r.answers r.at (register_all r.new_hubs c))

-- A bot that is in launch stays so: no later round lists it, whatever is registered meanwhile.
launching_stays :
    (rs : List Round) (b : String) (s : StagedBot) (c : Coordinator)
    → IsKeyed c.staged
    → lookup b c.staged ≡ some s
    → is_staged s.status ≡ false
    → lookup b (rounds rs c).staged ≡ some s
unfolding launcher_round
launching_stays [] b s c keyed h idle = h
launching_stays (r ∷ rs) b s c keyed h idle =
    let c' = register_all r.new_hubs c in
    let same_staged = register_all-staged r.new_hubs c in
    let keyed' : IsKeyed c'.staged = rw (same_staged) keyed in
    let h' : lookup b c'.staged ≡ some s = rw (same_staged) h in
    let ready = keep_if (λ e. is_ready r.at e.1) c'.staged in
    launching_stays rs b s (launcher_round r.answers r.at c')
      (launch_all-IsKeyed r.answers r.at ready c' keyed')
      (launch_all_apart r.answers r.at b ready c' (ready_apart r.at b s c'.staged keyed' h' idle)
        ∙ h')
      idle

launch-callbacks :
    (answers : String → Bool) (now : ℕ) (s : StagedBot) (c : Coordinator)
    → (launch answers now s c).callbacks ≡ c.callbacks
unfolding launch register_active
launch-callbacks answers now s c = ground arith

abbrev pub in_launch : StagedBot → StagedBot
in_launch s = record s { status = Status.launching }

launch_own :
    (answers : String → Bool) (now : ℕ) (b : String) (s : StagedBot) (c : Coordinator)
    → same s.bot_id b ≡ true
    → has_callback s.hub_type c.callbacks ≡ false
    → lookup b (launch answers now s c).staged ≡ some (in_launch s)
unfolding launch
launch_own answers now b s c own missing =
    let inserted = lookup-insert s.bot_id b (in_launch s) c.staged in ground arith

listed_launches :
    (answers : String → Bool) (now : ℕ) (b : String) (s : StagedBot) (d : Dict StagedBot)
    (c : Coordinator)
    → IsKeyed d
    → lookup b d ≡ some s
    → is_ready now s ≡ true
    → has_callback s.hub_type c.callbacks ≡ false
    → lookup b (launch_all answers now (keep_if (λ e. is_ready now e.1) d) c).staged
      ≡ some (in_launch s)
unfolding lookup launch_all
listed_launches answers now b s [] c keyed h ready missing = cc
listed_launches answers now b s ((k, t) ∷ d) c ((fresh, distinct), (key, keyed)) h ready missing =
    let rest = keep_if (λ e. is_ready now e.1) d in
    elim (Bool-cases (same k b)) [
      | inl e ↦
          let this : t ≡ s = ground arith in
          let own : same t.bot_id b ≡ true =
            ground (arith, eq_iff t.bot_id k, eq_iff k b, eq_iff t.bot_id b) in
          let gone : lookup b d ≡ none = ground (arith, eq_iff k b) in
          let apart = absent_apart now b d keyed gone in
          let missing' = ap (λ x. has_callback x.hub_type c.callbacks) this ∙ missing in
          rw (ap (is_ready now) this ∙ ready) (
            launch_all_apart answers now b rest (launch answers now t c) apart
            ∙ launch_own answers now b t c own missing'
            ∙ ap (λ x. some (in_launch x)) this)
      | inr e ↦
          let h' : lookup b d ≡ some s = ground arith in
          let missing' =
            ap (has_callback s.hub_type) (launch-callbacks answers now t c) ∙ missing in
          elim (Bool-cases (is_ready now t)) [
            | inl r ↦ rw (r) (
                listed_launches answers now b s d (launch answers now t c) (distinct, keyed) h'
                  ready missing')
            | inr r ↦
                rw (r) (listed_launches answers now b s d c (distinct, keyed) h' ready missing)
          ]
    ]

-- A bot whose time has come and whose hub has no callback is put in launch by the round that lists
-- it, and stays in launch: no later round starts it or drops it, whatever callbacks are registered
-- meanwhile.
pub no_callback_stuck :
    (answers : String → Bool) (now : ℕ) (rs : List Round) (b : String) (s : StagedBot)
    (c : Coordinator)
    → IsKeyed c.staged
    → lookup b c.staged ≡ some s
    → is_ready now s ≡ true
    → has_callback s.hub_type c.callbacks ≡ false
    → lookup b (rounds rs (launcher_round answers now c)).staged ≡ some (in_launch s)
unfolding launcher_round
no_callback_stuck answers now rs b s c keyed h ready missing =
    launching_stays rs b (in_launch s) (launcher_round answers now c)
      (launch_all-IsKeyed answers now (keep_if (λ e. is_ready now e.1) c.staged) c keyed)
      (listed_launches answers now b s c.staged c keyed h ready missing) refl
