-- ===== src/Portal/Admin.antt =====
-- dashboard/captive_portal_server.py, lines 437 to 569: the administrator's form of the portal.
-- `id_of` is SQLite's reading of a text as a number, where a column of integers is compared with it.
use opti_gate.Base.{ℕ, String, List, Option, none, some, Bool, true, false, if◌then◌else◌, ◌==◌}
use opti_gate.Base.{string_eq, nat_eq, ◌>>=◌, ◌&&◌, is_empty, find?}
use opti_gate.Settings.{get_setting}
use opti_gate.Tables.{Device, Group}
use opti_gate.Identity.Resolve.{resolve_device}
use opti_gate.RateLimit.{is_limited, record_failure}
use opti_gate.Portal.Password.{Pbkdf2, verify_admin_credentials}
use opti_gate.Portal.Login.{Page, too_many_attempts, unknown_device, incorrect, name_needed}
use opti_gate.Portal.Login.{bypassed, excluded, no_such_group, unknown_action, assigned}
use opti_gate.Portal.Login.{Portal, needs_label, coalesce, label_or_none, update_device}
use opti_gate.Portal.Login.{log_failed_login}

-- The fields of the form.
pub record Form : Type 0 where
  pub admin_username : String
  pub admin_password : String
  pub action : String
  pub label : String
  pub group_id : String

unfoldable pub bypass : String → Device → Device
bypass label d = record d { bypass_login = true; label = coalesce d.label (label_or_none label) }

unfoldable pub ignore : String → Device → Device
ignore label d = record d {
  ignored = true;
  user_id = none;
  group_id = none;
  label = coalesce d.label (label_or_none label);
}

unfoldable pub assign : Group → String → Device → Device
assign g label d = record d {
  group_id = some g.id;
  user_id = none;
  is_authenticated = true;
  label = coalesce d.label (label_or_none label);
}

module _ (id_of : String → Option ℕ) where
  -- SELECT id, name FROM groups WHERE id = ?
  unfoldable pub group_of : List Group → String → Option Group
  group_of groups group_id = do i ← id_of group_id; find? (λ (g : Group). g.id == i) groups

  -- The device is changed, and the page says how.
  unfoldable pub change : Portal → Device → (Device → Device) → Page → Option (Portal × Page)
  change p d set page = do db ← update_device d set p.db; some (record p { db = db }, page)

  unfoldable pub assign_group : Portal → Form → Device → Option Group → Option (Portal × Page)
  assign_group p f d none = some (p, no_such_group)
  assign_group p f d (some g) = change p d (assign g f.label) (assigned g.name)

  unfoldable pub dispatch : Portal → Form → Device → Option (Portal × Page)
  dispatch p f d =
      if f.action == "bypass"
      then change p d (bypass f.label) bypassed
      else if f.action == "ignore"
      then change p d (ignore f.label) excluded
      else if f.action == "assign_group"
      then assign_group p f d (group_of p.db.groups f.group_id)
      else some (p, unknown_action)

  unfoldable pub admin_device : Portal → Form → Option Device → Option (Portal × Page)
  admin_device p f none = some (p, unknown_device)
  admin_device p f (some d) =
      if needs_label d && is_empty f.label then some (p, name_needed) else dispatch p f d

  module _ (pbkdf2 : Pbkdf2) (repr : String → String) (now : ℕ) (client_ip : String) where
    unfoldable pub after_check : Portal → Form → Bool → Option (Portal × Page)
    after_check p f false = some (
      record {
        db =
            log_failed_login pbkdf2 repr now client_ip "captive_portal_admin_action"
              f.admin_username none p.db;
        limiter = record_failure p.limiter now client_ip;
      },
      incorrect,
    )
    after_check p f true = do
      (db, device) ← resolve_device p.db client_ip now
      admin_device (record p { db = db }) f device

    unfoldable pub handle_admin_action : Portal → Form → Option (Portal × Page)
    handle_admin_action p f =
        let (limiter, limited) = is_limited p.limiter now client_ip in
        if limited then some (record p { limiter = limiter }, too_many_attempts) else (do
          right ←
              verify_admin_credentials pbkdf2 f.admin_username f.admin_password
                (get_setting p.db "admin_username" none)
                (get_setting p.db "admin_password_hash" none)
          after_check (record p { limiter = limiter }) f right)
