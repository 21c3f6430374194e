-- ===== src/Policy/Class.antt =====
-- common/policy_class.py.
use opti_gate.Base.{String, Bool, true, false, ◌&&◌, ◌||◌, if◌then◌else◌, is_some, ◌≡◌, ◌≢◌}
use opti_gate.Base.{Comparable, ◌↔◌, ◌==◌, arith}
use opti_gate.Tables.{DeviceRow, truthy}

pub data PolicyClass : Type 0 where
  authenticated preauth bypass quarantine : PolicyClass

abbrev pub class_beq : PolicyClass → PolicyClass → Bool
class_beq authenticated authenticated = true
class_beq preauth preauth = true
class_beq bypass bypass = true
class_beq quarantine quarantine = true
class_beq _ _ = false

pub class_beq_iff : (a b : PolicyClass) → (class_beq a b ≡ true) ↔ (a ≡ b)
class_beq_iff authenticated b = ground arith
class_beq_iff preauth b = ground arith
class_beq_iff bypass b = ground arith
class_beq_iff quarantine b = ground arith

instance abbrev pub class_eq : Comparable PolicyClass
class_eq = record { same = class_beq; same_iff = class_beq_iff }

-- The nftables set of a class (`_SET_NAMES`).
unfoldable pub to_set_name : PolicyClass → String
to_set_name authenticated = "authenticated"
to_set_name preauth = "unauthenticated"
to_set_name bypass = "bypass"
to_set_name quarantine = "quarantine"

unfoldable pub classify_device : DeviceRow → (group_ignored : Bool) → PolicyClass
classify_device row group_ignored =
    if truthy row.ignored || group_ignored
    then bypass
    else if is_some row.quarantined_at
    then quarantine
    else if truthy row.is_authenticated || truthy row.bypass_login
    then authenticated
    else preauth

unfoldable pub bump_eligible : DeviceRow → (group_ignored : Bool) → Bool
bump_eligible row group_ignored =
    truthy row.bump_enabled && (classify_device row group_ignored == authenticated)

-- Leaving out the group's flag, as the DNS rules do, changes nothing for a device outside BYPASS.
pub bump_eligible-default :
    (row : DeviceRow) (group_ignored : Bool)
    → classify_device row group_ignored ≢ bypass
    → bump_eligible row false ≡ bump_eligible row group_ignored
unfolding bump_eligible classify_device
bump_eligible-default row group_ignored h = ground arith
