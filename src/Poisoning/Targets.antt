-- ===== src/Poisoning/Targets.antt =====
-- controller/desired_state.py: one target for each MAC address with an active binding that is not
-- ignored, at the address seen last.
use opti_gate.Base.{String, Bool, not, ◌&&◌, string_eq}
use opti_gate.Base.{if◌then◌else◌, List, [], ◌∷◌, filter, sort_by, leb, contains}
use opti_gate.Tables.{Database, Binding, truthy}
use opti_gate.Tables.{join_device, row_of_join, group_ignored_of}

-- controller/ipc_client.py: Target
pub record Target : Type 0 where
  pub ip : String
  pub mac : String

-- controller/reconcile.py: DesiredState
pub record DesiredState : Type 0 where
  pub gateway : Target
  pub targets : List Target
  pub full_duplex : Bool

-- WHERE b.active = 1 AND COALESCE(d.ignored, 0) = 0 AND COALESCE(g.ignored, 0) = 0
unfoldable pub is_in_scope : Database → Binding → Bool
unfolding join_device row_of_join group_ignored_of
is_in_scope db b =
    let d = row_of_join (join_device db.devices b.device_id) in
    b.active && (not (truthy d.ignored) && not (group_ignored_of db.groups d.group_id))

-- ORDER BY b.last_seen_at DESC
abbrev pub fresher : Binding → Binding → Bool
fresher a b = leb b.last_seen_at a.last_seen_at

-- The loop with its set of MAC addresses already taken.
unfoldable pub take_freshest : List String → List Binding → List Target
unfolding contains
take_freshest seen [] = []
take_freshest seen (b ∷ rows) =
    let taken =
      record { ip = b.ipv4_address; mac = b.mac_address }
      ∷ take_freshest (b.mac_address ∷ seen) rows in
    let skipped = take_freshest seen rows in if contains seen b.mac_address then skipped else taken

unfoldable pub db_backed_desired_state : Database → Target → Bool → DesiredState
db_backed_desired_state db gateway full_duplex = record {
  gateway = gateway;
  targets = take_freshest [] (sort_by fresher (filter (is_in_scope db) db.device_bindings));
  full_duplex = full_duplex;
}
