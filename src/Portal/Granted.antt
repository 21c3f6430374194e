-- ===== src/Portal/Granted.antt =====
-- Portal/Admin: who may change a device by the administrator's form.
use opti_gate.Base.{ℕ, String, Option, some, Bool, true, false, ◌≡◌}
use opti_gate.Base.{update_where, string_eq}
use opti_gate.Base.{is_empty, ◌&&◌}
use opti_gate.Tables.{Database, Device, Group}
use opti_gate.Identity.Resolve.{resolve_device}
use opti_gate.Portal.Password.{Pbkdf2}
use opti_gate.Portal.Login.{Page, bypassed, excluded, assigned, Portal, needs_label, is_device}
use opti_gate.Portal.Admin.{Form, bypass, ignore, assign, group_of}

-- The change of the device that the form asks for.
pub data Asks (id_of : String → Option ℕ) (db : Database) (f : Form)
    : (Device → Device) → Type 0 where
  asks_bypass : f.action ≡ "bypass" → Asks id_of db f (bypass f.label)
  asks_ignore : f.action ≡ "ignore" → Asks id_of db f (ignore f.label)
  asks_group :
      (g : Group)
      → f.action ≡ "assign_group"
      → group_of id_of db.groups f.group_id ≡ some g
      → Asks id_of db f (assign g f.label)

-- The pages of a change.
unfoldable pub is_granted : Page → Bool
is_granted bypassed = true
is_granted excluded = true
is_granted (assigned name) = true
is_granted page = false

module _ (id_of : String → Option ℕ) (f : Form) (q : Portal) (page : Page) where
  -- The change is made to the device, and to no other.
  abbrev pub IsChanged : Database → Device → Type 0
  IsChanged db d =
      (set : Device → Device) × Asks id_of db f set
      × (q.db.devices ≡ update_where (is_device d.id) set db.devices)

  module _ (pbkdf2 : Pbkdf2) (repr : String → String) (now : ℕ) (client_ip : String) where
    -- The device behind the address is changed.
    abbrev pub IsGranted : Database → Type 0
    IsGranted before =
        (db : Database) × (d : Device) × (resolve_device before client_ip now ≡ some (db, some d))
        × ((needs_label d && is_empty f.label) ≡ false)
        × IsChanged db d
