-- ===== src/Controller/Reported.antt =====
-- Controller/Cycle: what the health report says of a cycle.
use opti_gate.Base.{ℕ, String, Option, none, some, true, ltb, ◌==◌}
use opti_gate.Base.{
  string_eq, option_eq, ◌⊎◌, inl, inr, ◌≡◌, ◌≢◌, refl, sym, ap, ◌∙◌, subst, ◌≤◌, some_inj,
}
use opti_gate.Base.{Bool-cases, Option-cases, arith}
use opti_gate.Policy.Sets.{PolicySets}
use opti_gate.Poisoning.Targets.{DesiredState}
use opti_gate.Poisoning.Reconcile.{reconcile, reconcile-some}
use opti_gate.Controller.Runtime.{Runtime, RuntimeMode, running, upsert, safe_write, fresh}
use opti_gate.Controller.Runtime.{report_healthy, report_fail_open, report_repair_only}
use opti_gate.Controller.Runtime.{write_desired_policy}
use opti_gate.Controller.Cycle.{
  Failure, connection, worker, other, Worker, CycleState, generation_of,
}
use opti_gate.Controller.Cycle.{arp_send_failure_threshold, report_failure, report_health, publish}
use opti_gate.Controller.Cycle.{after_send, send, run_cycle}

inr_inj : {A B : Type 0} {x y : B} → ◌≡◌ {A = A ⊎ B} (inr x) (inr y) → x ≡ y
inr_inj h = cc

module _ {W : Type 0} (replace_targets : Worker W) (now : ℕ) (text : ℕ → String)
    (failures : ℕ) where
  abbrev IsRunning : CycleState W → Type 0
  IsRunning t = (row : Runtime) × (t.runtime ≡ some row) × (row.mode ≡ running)

  -- No failure is reported as running.
  not_running_upsert :
      (set : Runtime → Runtime) (row : Option Runtime) (r : Runtime)
      → ((x : Runtime) → (set x).mode ≢ running)
      → upsert set row ≡ some r
      → r.mode ≢ running
  not_running_upsert set none r h e m = h fresh (ap (λ (z : Runtime). z.mode) (some_inj e) ∙ m)
  not_running_upsert set (some x) r h e m = h x (ap (λ (z : Runtime). z.mode) (some_inj e) ∙ m)

  report_failure-IsRunning :
      (e : Failure) (s t : CycleState W)
      → report_failure replace_targets true now text failures e s ≡ inr t
      → IsRunning t
      → ⊥
  unfolding report_failure report_fail_open report_repair_only safe_write
  report_failure-IsRunning connection s t h r = cc
  report_failure-IsRunning (worker action message) s t h (row, e, m) =
      let q = ap (λ (z : CycleState W). z.runtime) (inr_inj h) in
      elim (Bool-cases (action == some "entering_repair_only_mode")) [
        | inl x ↦
            not_running_upsert
              (λ r. record r { mode = RuntimeMode.repair_only; fail_open_reason = some message })
              s.runtime row (λ r k. cc) ((rw x at q) ∙ e) m
        | inr x ↦
            not_running_upsert
              (λ r. record r { mode = RuntimeMode.fail_open; fail_open_reason = some message })
              s.runtime row (λ r k. cc) ((rw x at q) ∙ e) m
      ]
  report_failure-IsRunning (other message) s t h (row, e, m) =
      not_running_upsert
        (λ r. record r { mode = RuntimeMode.fail_open; fail_open_reason = some message }) s.runtime
        row (λ r k. cc) (ap (λ (z : CycleState W). z.runtime) (inr_inj h) ∙ e) m

  -- What the row of a healthy cycle holds.
  abbrev IsHealthyRow : ℕ → PolicySets → Option Runtime → Type 0
  IsHealthyRow g policy o =
      (row : Runtime) × (o ≡ some row)
      × (row.applied_generation ≡ g)
      × (row.desired_policy ≡ some policy)
      × (row.fail_open_reason ≡ none)

  healthy_row :
      (g : ℕ) (policy : PolicySets) (o : Option Runtime)
      → IsHealthyRow g policy (report_healthy true now g (write_desired_policy policy o))
  unfolding report_healthy write_desired_policy safe_write
  healthy_row g policy none = (_, refl, refl, refl, refl)
  healthy_row g policy (some row) = (_, refl, refl, refl, refl)

  published :
      (policy : String ⊎ PolicySets) (s t : CycleState W)
      → publish replace_targets true now text failures policy s ≡ inr t
      → IsRunning t
      → (sets : PolicySets) × (policy ≡ inr sets)
        × (ltb failures arp_send_failure_threshold ≡ true)
        × (t.applied ≡ s.applied)
        × (t.peer ≡ s.peer)
        × IsHealthyRow (generation_of t.applied) sets t.runtime
  unfolding publish report_health report_fail_open safe_write
  published (inl message) s t h r = absurd (report_failure-IsRunning (other message) s t h r)
  published (inr sets) s t h (row, e, m) =
      let q = ap (λ (z : CycleState W). z.runtime) (inr_inj h) in
      let same = ap (λ (z : CycleState W). z.applied) (inr_inj h) in
      elim (Bool-cases (ltb failures arp_send_failure_threshold)) [
        | inl x ↦ (
          sets,
          refl,
          x,
          sym same,
          sym (ap (λ (z : CycleState W). z.peer) (inr_inj h)),
          subst (λ z. IsHealthyRow (generation_of z) sets t.runtime) same
              (subst (IsHealthyRow (generation_of s.applied) sets) (rw x at q)
                (healthy_row (generation_of s.applied) sets s.runtime)),
        )
        | inr x ↦ absurd (
            not_running_upsert
              (λ r. record r {
                applied_generation = generation_of s.applied;
                mode = RuntimeMode.fail_open;
                fail_open_reason = some (text failures);
              })
              (write_desired_policy sets s.runtime) row (λ r k. cc) ((rw x at q) ∙ e) m)
      ]

  sent :
      (policy : String ⊎ PolicySets) (g : ℕ) (d : DesiredState) (s t : CycleState W)
      (reply : W × Option Failure)
      → after_send replace_targets true now text failures policy g d s reply ≡ inr t
      → IsRunning t
      → (sets : PolicySets) × (policy ≡ inr sets)
        × (ltb failures arp_send_failure_threshold ≡ true)
        × (reply ≡ (t.peer, none))
        × (t.applied ≡ some (record { generation = g; desired = d }))
        × IsHealthyRow (generation_of t.applied) sets t.runtime
  unfolding after_send
  sent policy g d s t (w, none) h r =
      let (sets, p, f, a, same, row) = published policy _ t h r in
      (sets, p, f, ap (λ z. (z, none)) (sym same), a, row)
  sent policy g d s t (w, some f) h r = absurd (report_failure-IsRunning f _ t h r)

  -- Either the state was applied before and is left as it was, or the worker was sent it under a new
  -- generation and took it without a failure, and only then it is recorded as applied.
  abbrev IsAccepted : DesiredState → CycleState W → CycleState W → Type 0
  IsAccepted d s t =
      ((reconcile s.applied d ≡ none) × (t.applied ≡ s.applied))
      ⊎ ((g : ℕ) × (reconcile s.applied d ≡ some g)
          × (replace_targets g d s.peer ≡ (t.peer, none))
          × (t.applied ≡ some (record { generation = g; desired = d })))

  -- A cycle that is reported as running, the health report being stored, was given a desired state
  -- and a policy; fewer than three sends in a row had failed; the desired
  -- state was applied already, or was sent to the worker, which took it without a failure, and is
  -- recorded as applied, so that nothing is left to send; and the row holds the generation that was applied, the
  -- policy, and no reason for a failure.
  pub run_cycle-IsRunning :
      (desired : String ⊎ DesiredState) (policy : String ⊎ PolicySets) (s t : CycleState W)
      → run_cycle replace_targets true now text failures desired policy s ≡ inr t
      → IsRunning t
      → (d : DesiredState) × (sets : PolicySets) × (desired ≡ inr d)
        × (policy ≡ inr sets)
        × (failures ≤ 2)
        × IsAccepted d s t
        × (reconcile t.applied d ≡ none)
        × IsHealthyRow (generation_of t.applied) sets t.runtime
  unfolding run_cycle send
  run_cycle-IsRunning (inl message) policy s t h r =
      absurd (report_failure-IsRunning (other message) s t h r)
  run_cycle-IsRunning (inr d) policy s t h r = elim (Option-cases (reconcile s.applied d)) [
    | inl e ↦
        let (sets, p, f, a, _, row) = published policy s t (rw e at h) r in
        (d, sets, refl, p, ground arith, inl (e, a), ap (λ z. reconcile z d) a ∙ e, row)
    | inr (g, e) ↦
        let (sets, p, f, taken, a, row) =
          sent policy g d s t (replace_targets g d s.peer) (rw e at h) r in
        (
          d,
          sets,
          refl,
          p,
          ground arith,
          inr (g, e, taken, a),
          ap (λ z. reconcile z d) a ∙ (reconcile-some s.applied d g e).1,
          row,
        )
  ]
