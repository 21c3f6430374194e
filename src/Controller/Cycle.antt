-- ===== src/Controller/Cycle.antt =====
-- controller/main.py, lines 526 to 614: one reconciliation cycle. The worker and its socket are a
-- parameter; the database connections for the policy and the health report are those of the
-- controller's database.
use opti_gate.Base.{ℕ, String, Option, none, some, Bool, if◌then◌else◌, ltb, ◌==◌}
use opti_gate.Base.{string_eq, option_eq, ◌⊎◌, inl, inr}
use opti_gate.Policy.Sets.{PolicySets}
use opti_gate.Poisoning.Targets.{DesiredState}
use opti_gate.Poisoning.Reconcile.{AppliedState, reconcile}
use opti_gate.Controller.Runtime.{Runtime, report_healthy, report_fail_open, report_repair_only}
use opti_gate.Controller.Runtime.{write_desired_policy}

-- `WorkerConnectionError`, any other `WorkerError` with its action, and any other exception.
pub data Failure : Type 0 where
  connection : Failure
  worker : (action : Option String) (message : String) → Failure
  other : (message : String) → Failure

-- What `replace_targets` does: the worker afterwards, and the failure it raises, if any.
abbrev pub Worker : Type 0 → Type 0
Worker W = ℕ → DesiredState → W → W × Option Failure

-- What the next cycle is given.
pub record CycleState (W : Type 0) : Type 0 where
  pub peer : W
  pub applied : Option AppliedState
  pub runtime : Option Runtime

-- `ARP_SEND_FAILURE_THRESHOLD`
abbrev pub arp_send_failure_threshold : ℕ
arp_send_failure_threshold = 3

abbrev pub generation_of : Option AppliedState → ℕ
generation_of none = 0
generation_of (some s) = s.generation

module _ {W : Type 0} (replace_targets : Worker W) (accepts : Bool) (now : ℕ)
    (send_failure_text : ℕ → String) (consecutive_send_failures : ℕ) where
  -- A cycle that raised. A lost connection goes on to the caller, which reconnects to the worker
  -- that is left and keeps the rest of its state.
  unfoldable pub report_failure : Failure → CycleState W → W ⊎ CycleState W
  report_failure connection s = inl s.peer
  report_failure (worker action message) s = inr (record s {
    runtime =
        if action == some "entering_repair_only_mode"
        then report_repair_only accepts message s.runtime
        else report_fail_open accepts message none s.runtime;
  })
  report_failure (other message) s =
      inr (record s { runtime = report_fail_open accepts message none s.runtime })

  -- The health report of a cycle that did not raise.
  unfoldable pub report_health : CycleState W → CycleState W
  report_health s = record s {
    runtime =
        if ltb consecutive_send_failures arp_send_failure_threshold
        then report_healthy accepts now (generation_of s.applied) s.runtime
        else report_fail_open accepts (send_failure_text consecutive_send_failures)
            (some (generation_of s.applied)) s.runtime;
  }

  -- The policy is published and the health reported.
  unfoldable pub publish : String ⊎ PolicySets → CycleState W → W ⊎ CycleState W
  publish (inl message) s = report_failure (other message) s
  publish (inr policy) s =
      inr (report_health (record s { runtime = write_desired_policy policy s.runtime }))

  -- After `replace_targets`; a worker that raised has not applied the state.
  unfoldable pub after_send :
      String ⊎ PolicySets → ℕ → DesiredState → CycleState W → W × Option Failure → W ⊎ CycleState W
  after_send policy next_gen desired s (w, none) =
      publish policy (record s {
        peer = w;
        applied = some (record { generation = next_gen; desired = desired });
      })
  after_send policy next_gen desired s (w, some e) = report_failure e (record s { peer = w })

  unfoldable pub send :
      String ⊎ PolicySets → DesiredState → CycleState W → Option ℕ → W ⊎ CycleState W
  send policy desired s none = publish policy s
  send policy desired s (some next_gen) =
      after_send policy next_gen desired s (replace_targets next_gen desired s.peer)

  -- `desired` is what the provider gives, or the message of what it raises; `policy` is what
  -- `compute_desired_policy` gives, or the message of what it or the write of the policy raises.
  -- A health report without a connection is one that is not accepted.
  unfoldable pub run_cycle :
      (desired : String ⊎ DesiredState) (policy : String ⊎ PolicySets)
      → CycleState W
      → W ⊎ CycleState W
  run_cycle (inl message) policy s = report_failure (other message) s
  run_cycle (inr desired) policy s = send policy desired s (reconcile s.applied desired)
