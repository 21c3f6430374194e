-- ===== src/Examples/Rules.antt =====
-- The child's grants, and the devices whose traffic is redirected.
use opti_gate.Base.{none, some, [], ◌∷◌, true, false, ◌≡◌, refl, In, ◌↔◌, ◌<◌, ◌≤◌, NoDup, map}
use opti_gate.Tables.{Binding}
use opti_gate.Poisoning.Targets.{Target, DesiredState, is_in_scope}
use opti_gate.Poisoning.Freshest.{state_targets, target_of, db_backed_desired_state_freshest}
use opti_gate.Poisoning.Reconcile.{
  AppliedState, reconcile, IsSameState, reconcile-none_iff, reconcile-some,
}
use opti_gate.Examples.Household.{home}

abbrev gateway : Target
gateway = record { ip = "10.0.0.1"; mac = "ff" }

abbrev laptop_only : DesiredState
laptop_only = record {
  gateway = gateway;
  targets = record { ip = "10.0.0.10"; mac = "aa" } ∷ [];
  full_duplex = true;
}

db_backed_desired_state_freshest_example :
    ((t : Target)
      → In t (state_targets home gateway true)
      → (b : Binding) × In b home.device_bindings
        × (is_in_scope home b ≡ true)
        × (t ≡ target_of b)
        × ((c : Binding)
            → In c home.device_bindings
            → is_in_scope home c ≡ true
            → c.mac_address ≡ b.mac_address
            → c.last_seen_at ≤ b.last_seen_at))
    × ((b : Binding)
        → In b home.device_bindings
        → is_in_scope home b ≡ true
        → (t : Target) × In t (state_targets home gateway true) × (t.mac ≡ b.mac_address))
    × NoDup (map (λ (t : Target). t.mac) (state_targets home gateway true))
db_backed_desired_state_freshest_example = db_backed_desired_state_freshest home gateway true

abbrev applied : AppliedState
applied = record { generation = 4; desired = record laptop_only { full_duplex = false } }

reconcile-none_iff_example :
    (reconcile (some applied) laptop_only ≡ none)
    ↔ ((s : AppliedState) × (some applied ≡ some s) × IsSameState s.desired laptop_only)
reconcile-none_iff_example = reconcile-none_iff (some applied) laptop_only

next_generation : reconcile (some applied) laptop_only ≡ some 5
unfolding reconcile opti_gate.Poisoning.Reconcile.same_targets
next_generation = refl

reconcile-some_example :
    ((s : AppliedState) → some applied ≡ some s → s.generation < 5)
    × (reconcile (some (record { generation = 5; desired = laptop_only })) laptop_only ≡ none)
reconcile-some_example = reconcile-some (some applied) laptop_only 5 next_generation
