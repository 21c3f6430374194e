-- ===== src/Examples/Cycles.antt =====
-- A first cycle of the controller, and its event log.
use opti_gate.Base.{ℕ, String, List, [], ◌∷◌, none, some, ◌≡◌, refl, inr, length, ◌≤◌, true}
use opti_gate.Tables.{Severity}
use opti_gate.Examples.Household.{home}
use opti_gate.Identity.Events.{log_event}
use opti_gate.Policy.Sets.{PolicySets, empty_sets}
use opti_gate.Poisoning.Reconcile.{reconcile}
use opti_gate.Base.{◌⊎◌}
use opti_gate.Poisoning.Targets.{DesiredState}
use opti_gate.Controller.Cycle.{Worker, CycleState, Failure}
use opti_gate.Controller.Reported.{run_cycle-IsRunning}
use opti_gate.Controller.Capped.{log_event-capped}
use opti_gate.Controller.Runtime.{Runtime, running}

abbrev obedient : Worker (List ℕ)
obedient generation desired seen = (generation ∷ seen, none)

abbrev wanted : DesiredState
wanted = record {
  gateway = record { ip = "10.0.0.1"; mac = "ff" };
  targets = record { ip = "10.0.0.10"; mac = "aa" } ∷ [];
  full_duplex = true;
}

abbrev first : CycleState (List ℕ)
first = record { peer = []; applied = none; runtime = none }

abbrev second : CycleState (List ℕ)
second = record {
  peer = 1 ∷ [];
  applied = some (record { generation = 1; desired = wanted });
  runtime = some (record {
    applied_generation = 1;
    mode = running;
    last_healthy_at = some 100;
    fail_open_reason = none;
    desired_policy = some empty_sets;
  });
}

-- The second cycle would send nothing, and the row holds what the first one applied.
run_cycle-IsRunning_example :
    (d : DesiredState) × (sets : PolicySets) × ◌≡◌ {A = String ⊎ DesiredState} (inr wanted) (inr d)
    × ◌≡◌ {A = String ⊎ PolicySets} (inr empty_sets) (inr sets)
    × (0 ≤ 2)
    × (((reconcile first.applied d ≡ none) × (second.applied ≡ first.applied))
        ⊎ ((g : ℕ) × (reconcile first.applied d ≡ some g)
            × (obedient g d first.peer ≡ (second.peer, none))
            × (second.applied ≡ some (record { generation = g; desired = d }))))
    × (reconcile second.applied d ≡ none)
    × ((row : Runtime) × (second.runtime ≡ some row)
        × (row.applied_generation ≡ 1)
        × (row.desired_policy ≡ some sets)
        × (row.fail_open_reason ≡ none))
unfolding opti_gate.Controller.Cycle.run_cycle opti_gate.Controller.Cycle.send
    opti_gate.Poisoning.Reconcile.reconcile opti_gate.Controller.Cycle.after_send
    opti_gate.Controller.Cycle.publish opti_gate.Controller.Cycle.report_health
    opti_gate.Controller.Runtime.report_healthy opti_gate.Controller.Runtime.safe_write
    opti_gate.Controller.Runtime.write_desired_policy
run_cycle-IsRunning_example =
    run_cycle-IsRunning obedient 100 (λ n. "failures") 0 (inr wanted) (inr empty_sets) first second
      refl (_, refl, refl)

log_event-capped_example :
    length (log_event home 100 "discovery" Severity.error "discovery failed" none).system_events
    ≤ 5000
log_event-capped_example =
    (log_event-capped home 100 "discovery" Severity.error "discovery failed" none tt).0
