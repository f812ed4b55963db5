-- ===== src/Coordinator/Tests.antt =====
-- The coordinator of runtime/core/bot_coordinator.py with two active bots and a staged one.
use pecunator_accu_monetas.Prelude.{◌+◌, ◌≡◌, refl, true, false, some, List, [], ◌∷◌, arith, length}
use pecunator_accu_monetas.Prelude.Dict.{lookup}
use pecunator_accu_monetas.Prelude.Frac.{of_ℕ}
use pecunator_accu_monetas.Coordinator.State.{
  Status, StagedBot, ActiveBot, Coordinator, compute_jitter, collisions, jitter_of,
}
use pecunator_accu_monetas.Coordinator.Delay.{
  heatmap, score_of, best_launch_second, mark_cycles, cycle_fuel, zeros,
}
use pecunator_accu_monetas.Coordinator.Launcher.{has_callback, launcher_round}
use pecunator_accu_monetas.Coordinator.Fuel.{mark_cycles_ends}
use pecunator_accu_monetas.Coordinator.Choice.{IsBest, best_launch_second_least}
use pecunator_accu_monetas.Coordinator.Stuck.{IsKeyed, Round, rounds, in_launch, no_callback_stuck}

abbrev dorothy : ActiveBot
dorothy = record {
  bot_id = "dorothy_btc";
  loop_interval = 30000;
  last_cycle = 1000;
  weight_per_cycle = 15;
}

abbrev elphaba : ActiveBot
elphaba = record {
  bot_id = "elphaba_btc";
  loop_interval = 29000;
  last_cycle = 4000;
  weight_per_cycle = 15;
}

abbrev waiting : StagedBot
waiting = record {
  bot_id = "louise_btc";
  hub_type = "louise";
  loop_interval = 60000;
  launch_delay_sec = of_ℕ 3;
  launch_at = of_ℕ 8000;
  status = Status.staged;
}

-- 80 % of the limit is used.
abbrev coordinator : Coordinator
coordinator = record {
  weight_limit = 6000;
  staged = ("louise_btc", waiting) ∷ [];
  active = ("dorothy_btc", dorothy) ∷ ("elphaba_btc", elphaba) ∷ [];
  current_weight = 4800;
  callbacks = "dorothy" ∷ [];
}

mark_cycles_ends_example :
    mark_cycles (cycle_fuel + 5) 26000 30000 15 (zeros 60)
    ≡ mark_cycles cycle_fuel 26000 30000 15 (zeros 60)
mark_cycles_ends_example = mark_cycles_ends 5 26000 30000 15 (zeros 60) (omega arith)

best_launch_second_least_example :
    (length (heatmap 5000 coordinator) ≡ 60)
    × IsBest
        (score_of (λ sec. 5000 + sec) 60000 coordinator)
        (heatmap 5000 coordinator)
        (best_launch_second 5000 (λ sec. 5000 + sec) 60000 coordinator)
best_launch_second_least_example =
    best_launch_second_least 5000 (λ sec. 5000 + sec) 60000 coordinator

found_dorothy : lookup "dorothy_btc" coordinator.active ≡ some dorothy
unfolding lookup
found_dorothy = refl

-- One collision at a pressure of 80 / 95.
jitter_run : compute_jitter "dorothy_btc" coordinator ≡ record { num = 960000; den = 570000 }
unfolding compute_jitter jitter_of collisions lookup
jitter_run = refl

found_waiting : lookup "louise_btc" coordinator.staged ≡ some waiting
unfolding lookup
found_waiting = refl

keyed : IsKeyed coordinator.staged
unfolding lookup
keyed = ((refl, tt), (refl, tt))

no_callback : has_callback "louise" coordinator.callbacks ≡ false
unfolding has_callback
no_callback = refl

-- The callback of the hub is registered a second later.
abbrev later : List Round
later = record { new_hubs = "louise" ∷ []; answers = λ b. true; at = 10000 } ∷ []

no_callback_stuck_example :
    lookup "louise_btc" (rounds later (launcher_round (λ b. true) 9000 coordinator)).staged
    ≡ some (in_launch waiting)
no_callback_stuck_example =
    no_callback_stuck (λ b. true) 9000 later "louise_btc" waiting coordinator keyed found_waiting
      refl no_callback
