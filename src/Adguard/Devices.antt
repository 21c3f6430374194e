-- ===== src/Adguard/Devices.antt =====
-- controller/adguard_sync.py, lines 353 to 387: the devices that the DNS rules are about.
use opti_gate.Base.{List, Bool, not, ◌&&◌, ◌==◌, filter, sort_by, str_leb}
use opti_gate.Base.{
  [], ◌∷◌, if◌then◌else◌, option_eq, nat_eq, string_eq, any, bool_beq, Option, none, some,
}
use opti_gate.Tables.{Database, PolicyRow}
use opti_gate.Policy.Class.{PolicyClass, class_eq, classify_device}
use opti_gate.Policy.Sets.{policy_rows}

abbrev pub flag_beq : Option Bool → Option Bool → Bool
flag_beq none none = Bool.true
flag_beq none (some b) = Bool.false
flag_beq (some a) none = Bool.false
flag_beq (some a) (some b) = bool_beq a b

-- Rows that agree in every selected column.
abbrev pub row_beq : PolicyRow → PolicyRow → Bool
row_beq a b =
    a.device.id == b.device.id
    && a.device.user_id == b.device.user_id
    && a.device.group_id == b.device.group_id
    && flag_beq a.device.ignored b.device.ignored
    && a.device.quarantined_at == b.device.quarantined_at
    && flag_beq a.device.is_authenticated b.device.is_authenticated
    && flag_beq a.device.bump_enabled b.device.bump_enabled
    && flag_beq a.device.bypass_login b.device.bypass_login
    && bool_beq a.group_ignored b.group_ignored
    && a.ipv4_address == b.ipv4_address

-- SELECT DISTINCT
unfoldable pub distinct : List PolicyRow → List PolicyRow
unfolding any
distinct [] = []
distinct (row ∷ rows) =
    let rest = distinct rows in if any (row_beq row) rest then rest else row ∷ rest

-- ORDER BY b.ipv4_address
abbrev pub by_address : PolicyRow → PolicyRow → Bool
by_address a b = str_leb a.ipv4_address b.ipv4_address

unfoldable pub is_eligible : PolicyRow → Bool
is_eligible row = not (classify_device row.device row.group_ignored == PolicyClass.bypass)

unfoldable pub fetch_eligible_devices : Database → List PolicyRow
unfolding distinct is_eligible filter sort_by policy_rows
fetch_eligible_devices db = filter is_eligible (sort_by by_address (distinct (policy_rows db)))
