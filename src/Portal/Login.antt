-- ===== src/Portal/Login.antt =====
-- dashboard/captive_portal_server.py, lines 66 to 104 and 327 to 435: the login of a household
-- member. none is an exception, after which the request is dropped.
use opti_gate.Base.{ℕ, String, List, Option, none, some, Bool, true, not, if◌then◌else◌, ◌==◌}
use opti_gate.Base.{
  string_eq, nat_eq, ◌<>◌, ◌>>=◌, ◌&&◌, ◌||◌, is_empty, strip, lower, from_option, find?,
}
use opti_gate.Base.{any, update_where, is_some}
use opti_gate.Tables.{Database, Device, User, Severity, sql_eq}
use opti_gate.Identity.Events.{log_event}
use opti_gate.Identity.Resolve.{resolve_device}
use opti_gate.Proxy.Series.{prefix}
use opti_gate.RateLimit.{RateLimiter, is_limited, record_failure}
use opti_gate.Portal.Password.{Pbkdf2, verify_password}

-- The pages that the portal answers with.
pub data Page : Type 0 where
  too_many_attempts unknown_device blank_form incorrect name_needed : Page
  bypassed excluded no_such_group unknown_action : Page
  assigned : String → Page
  signed_in : (has_bump_elsewhere : Bool) → Page

-- The database, and the limiter that both forms share.
pub record Portal : Type 0 where
  pub db : Database
  pub limiter : RateLimiter

-- `not (device["label"] or "").strip()`
unfoldable pub needs_label : Device → Bool
needs_label d = is_empty (strip (from_option "" d.label))

-- COALESCE(column, ?)
abbrev pub coalesce : {A : Type 0} → Option A → Option A → Option A
coalesce none b = b
coalesce (some a) b = some a

-- `label or None`
unfoldable pub label_or_none : String → Option String
label_or_none label = if is_empty label then none else some label

-- CHECK (user_id IS NULL OR group_id IS NULL)
unfoldable pub is_valid_device : Device → Bool
is_valid_device d = not (is_some d.user_id && is_some d.group_id)

abbrev pub is_device : ℕ → Device → Bool
is_device i d = d.id == i

-- UPDATE devices SET … WHERE id = ?, which raises where the CHECK fails on the new row.
unfoldable pub update_device : Device → (Device → Device) → Database → Option Database
update_device d set db =
    if is_valid_device (set d)
    then some (record db { devices = update_where (is_device d.id) set db.devices })
    else none

-- WHERE username = ? COLLATE NOCASE
unfoldable pub user_named : List User → String → Option User
user_named users username = find? (λ (u : User). lower u.username == lower username) users

unfoldable pub authenticated : User → String → Device → Device
authenticated u label d = record d {
  is_authenticated = true;
  user_id = coalesce d.user_id (some u.id);
  label = coalesce d.label (label_or_none label);
}

-- SELECT 1 FROM devices WHERE user_id = ? AND bump_enabled = 1 AND id != ?
unfoldable pub has_bump_elsewhere : Database → User → Device → Bool
has_bump_elsewhere db u d =
    any (λ (e : Device). sql_eq e.user_id u.id && (e.bump_enabled && not (e.id == d.id))) db.devices

-- `repr` of a user name is Python's.
module _ (pbkdf2 : Pbkdf2) (repr : String → String) (now : ℕ) (client_ip : String) where
  unfoldable pub log_failed_login :
      (source username : String) (mac_address : Option String) → Database → Database
  log_failed_login source username mac_address db =
      log_event db now source Severity.error
        ("Failed login attempt from "
          <> (client_ip <> (" (username: " <> (repr (prefix 100 username) <> ")"))))
        mac_address

  -- The device is let online as the user.
  unfoldable pub sign_in :
      Portal → Device → User → (username label : String) → Option (Portal × Page)
  sign_in p d u username label = do
    db ← update_device d (authenticated u label) p.db
    let message =
        repr username
        <> (" logged in from device " <> (d.mac_address <> (" (" <> (client_ip <> ")"))))
    let logged = log_event db now "captive_portal_login" Severity.info message none
    some (record p { db = logged }, signed_in (has_bump_elsewhere logged u d))

  unfoldable pub after_credentials :
      Portal → Device → (username label : String) → Option User → Option (Portal × Page)
  after_credentials p d username label none = some (
    record {
      db = log_failed_login "captive_portal_login" username (some d.mac_address) p.db;
      limiter = record_failure p.limiter now client_ip;
    },
    incorrect,
  )
  after_credentials p d username label (some u) =
      if needs_label d && is_empty label
      then some (p, name_needed)
      else sign_in p d u username label

  -- The user, where the name and the password are right.
  unfoldable pub checked : (password : String) → Option User → Option (Option User)
  checked password none = some none
  checked password (some u) = do
    right ← verify_password pbkdf2 password u.password_hash
    some (if right then some u else none)

  unfoldable pub login_device :
      Portal → (username password label : String) → Option Device → Option (Portal × Page)
  login_device p username password label none = some (p, unknown_device)
  login_device p username password label (some d) =
      if is_empty username || is_empty password then some (p, blank_form) else (do
        user ← checked password (user_named p.db.users username)
        after_credentials p d username label user)

  unfoldable pub handle_login : Portal → (username password label : String) → Option (Portal × Page)
  handle_login p username password label =
      let (limiter, limited) = is_limited p.limiter now client_ip in
      if limited then some (record p { limiter = limiter }, too_many_attempts) else (do
        (db, device) ← resolve_device p.db client_ip now
        login_device (record { db = db; limiter = limiter }) username password label device)
