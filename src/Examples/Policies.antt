-- ===== src/Examples/Policies.antt =====
-- The policy of the household, by day and at bedtime.
use opti_gate.Base.{
  ◌==◌, string_eq, ℕ, String, Option, none, some, List, [], ◌∷◌, Bool, true, false, ◌≡◌, refl, sym,
  ap, subst, ◌∙◌, inl, inr, In, ◌↔◌, IsSorted, str_leb, is_some, ◌&&◌,
}
use opti_gate.Tables.{Database, Binding, HasUniqueAddresses, null_row}
use opti_gate.Schedule.Lockout.{is_full_lockout_active}
use opti_gate.Policy.Class.{PolicyClass, authenticated, bypass, classify_device}
use opti_gate.Policy.Sets.{PolicySets, compute_desired_policy, policy_row, policy_rows, empty_sets}
use opti_gate.Policy.Partition.{SetName, of_class, members}
use opti_gate.Policy.Membership.{BelongsTo, compute_desired_policy_iff}
use opti_gate.Tables.{Binding}
use opti_gate.Policy.Safety.{compute_desired_policy_disjoint}
use opti_gate.Policy.Safety.{compute_desired_policy_total}
use opti_gate.Examples.Times.{evening-Parses}
use opti_gate.Examples.Household.{platform, home, evening, laptop_binding, printer_binding}

abbrev by_day : PolicySets
by_day = record empty_sets {
  authenticated = "10.0.0.10" ∷ [];
  bypass = "10.0.0.11" ∷ [];
  bump = "10.0.0.10" ∷ [];
}

abbrev at_night : PolicySets
at_night = record empty_sets { quarantine = "10.0.0.10" ∷ []; bypass = "10.0.0.11" ∷ [] }

by_day_computed : compute_desired_policy platform home 0 ≡ some by_day
unfolding compute_desired_policy opti_gate.Policy.Sets.fill policy_rows
    opti_gate.Policy.Sets.overlaid_class classify_device opti_gate.Base.find? is_full_lockout_active
    opti_gate.Base.sort_by opti_gate.Policy.Sets.append_to_bump opti_gate.Policy.Sets.is_bumped
    opti_gate.Policy.Sets.append_to_class opti_gate.Policy.Class.bump_eligible
by_day_computed = refl

differ : laptop_binding.ipv4_address ≡ printer_binding.ipv4_address → ⊥
differ h =
    let q : (laptop_binding.ipv4_address == printer_binding.ipv4_address) ≡ true =
      (string_eq.same_iff laptop_binding.ipv4_address printer_binding.ipv4_address).1 h in
    cc

pub home-HasUniqueAddresses : HasUniqueAddresses home
home-HasUniqueAddresses a b (inl p) (inl q) x y e = p ∙ sym q
home-HasUniqueAddresses a b (inr (inl p)) (inr (inl q)) x y e = p ∙ sym q
home-HasUniqueAddresses a b (inl p) (inr (inl q)) x y e = absurd (
    differ
      (sym (ap (λ (z : Binding). z.ipv4_address) p) ∙ e ∙ ap (λ (z : Binding). z.ipv4_address) q))
home-HasUniqueAddresses a b (inr (inl p)) (inl q) x y e = absurd (
    differ (
      sym (
        sym (ap (λ (z : Binding). z.ipv4_address) p) ∙ e ∙ ap (λ (z : Binding). z.ipv4_address) q)))
home-HasUniqueAddresses a b (inr (inr p)) m x y e = absurd p
home-HasUniqueAddresses a b (inl p) (inr (inr q)) x y e = absurd q
home-HasUniqueAddresses a b (inr (inl p)) (inr (inr q)) x y e = absurd q

printer_is_bypass :
    classify_device
      (policy_row evening printer_binding).device
      (policy_row evening printer_binding).group_ignored
    ≡ bypass
unfolding classify_device policy_row opti_gate.Base.find?
printer_is_bypass = refl

compute_desired_policy_iff_example : In "10.0.0.10" (members (of_class authenticated) by_day) ↔ (
    (b : Binding) × In b home.device_bindings
    × (b.active ≡ true)
    × (b.ipv4_address ≡ "10.0.0.10")
    × BelongsTo platform home 0 (policy_row home b) (of_class authenticated))
compute_desired_policy_iff_example =
    compute_desired_policy_iff platform home 0 by_day by_day_computed (of_class authenticated)
      "10.0.0.10"

compute_desired_policy_disjoint_example : ¬ In "10.0.0.10" by_day.bypass
compute_desired_policy_disjoint_example =
    compute_desired_policy_disjoint platform home 0 by_day by_day_computed home-HasUniqueAddresses
      authenticated bypass "10.0.0.10" (λ e. cc) (inl refl)

compute_desired_policy_total_example :
    (p : PolicySets) × (compute_desired_policy platform evening 0 ≡ some p)
    × ((name : SetName) → IsSorted str_leb (members name p))
compute_desired_policy_total_example =
    compute_desired_policy_total platform evening 0 evening-Parses
