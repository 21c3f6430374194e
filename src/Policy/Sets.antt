-- ===== src/Policy/Sets.antt =====
-- controller/policy_state.py: the address sets that the packet filter reads.
use opti_gate.Base.{ℕ, String, Option, some, Bool, ◌&&◌, if◌then◌else◌, ◌==◌}
use opti_gate.Base.{List, [], ◌∷◌, ◌++◌, ◌>>=◌, map, filter, sort_by, str_leb}
use opti_gate.Tables.{Database, Binding, PolicyRow}
use opti_gate.Tables.{join_device, row_of_join, group_ignored_of}
use opti_gate.Platform.{Platform}
use opti_gate.Schedule.Lockout.{is_full_lockout_active}
use opti_gate.Policy.Class.{PolicyClass, class_eq}
use opti_gate.Policy.Class.{classify_device, bump_eligible}

-- The dictionary of five lists; the first four keys are the set names of the classes.
pub record PolicySets : Type 0 where
  pub authenticated : List String
  pub unauthenticated : List String
  pub bypass : List String
  pub quarantine : List String
  pub bump : List String

-- The row that the join makes of one binding.
unfoldable pub policy_row : Database → Binding → PolicyRow
unfolding join_device row_of_join group_ignored_of
policy_row db b =
    let row = row_of_join (join_device db.devices b.device_id) in
    record {
      device = row;
      group_ignored = group_ignored_of db.groups row.group_id;
      ipv4_address = b.ipv4_address;
    }

-- FROM device_bindings b LEFT JOIN devices d … LEFT JOIN groups g … WHERE b.active = 1
unfoldable pub policy_rows : Database → List PolicyRow
unfolding policy_row filter
policy_rows db = map (policy_row db) (filter (λ (b : Binding). b.active) db.device_bindings)

abbrev pub empty_sets : PolicySets
empty_sets = record {
  authenticated = [];
  unauthenticated = [];
  bypass = [];
  quarantine = [];
  bump = [];
}

-- `policy[to_set_name(policy_class)].append(ip)`
unfoldable pub append_to_class : PolicyClass → String → PolicySets → PolicySets
append_to_class PolicyClass.authenticated ip p = record p {
  authenticated = p.authenticated ++ (ip ∷ []);
}
append_to_class PolicyClass.preauth ip p = record p {
  unauthenticated = p.unauthenticated ++ (ip ∷ []);
}
append_to_class PolicyClass.bypass ip p = record p { bypass = p.bypass ++ (ip ∷ []) }
append_to_class PolicyClass.quarantine ip p = record p { quarantine = p.quarantine ++ (ip ∷ []) }

unfoldable pub append_to_bump : Bool → String → PolicySets → PolicySets
append_to_bump b ip p = if b then record p { bump = p.bump ++ (ip ∷ []) } else p

abbrev pub sort_sets : PolicySets → PolicySets
sort_sets p = record {
  authenticated = sort_by str_leb p.authenticated;
  unauthenticated = sort_by str_leb p.unauthenticated;
  bypass = sort_by str_leb p.bypass;
  quarantine = sort_by str_leb p.quarantine;
  bump = sort_by str_leb p.bump;
}

-- Bump is gated on the class after the overlay.
unfoldable pub is_bumped : PolicyRow → PolicyClass → Bool
is_bumped row policy_class =
    policy_class == PolicyClass.authenticated && bump_eligible row.device row.group_ignored

module _ (π : Platform) (db : Database) (now : ℕ) where
  -- The class of a row after the lockout overlay, which a BYPASS row never meets.
  unfoldable pub overlaid_class : PolicyRow → Option PolicyClass
  overlaid_class row =
      let policy_class = classify_device row.device row.group_ignored in
      if policy_class == PolicyClass.bypass then some policy_class else (do
        locked ← is_full_lockout_active π db now row.device
        some (if locked then PolicyClass.quarantine else policy_class))

  -- The loop over the rows.
  unfoldable pub fill : List PolicyRow → PolicySets → Option PolicySets
  fill [] p = some p
  fill (row ∷ rows) p = do
    policy_class ← overlaid_class row
    let filled = append_to_class policy_class row.ipv4_address p
    fill rows (append_to_bump (is_bumped row policy_class) row.ipv4_address filled)

  unfoldable pub compute_desired_policy : Option PolicySets
  compute_desired_policy = do p ← fill (policy_rows db) empty_sets; some (sort_sets p)
