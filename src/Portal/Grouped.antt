-- ===== src/Portal/Grouped.antt =====
-- Portal/Login: the login of a device that is assigned to a group.
use opti_gate.Base.{
  ℕ, String, Option, none, some, true, false, ◌≡◌, refl, is_some, is_empty, ◌||◌, ◌&&◌,
}
use opti_gate.Tables.{Database, Device, User}
use opti_gate.Identity.Resolve.{resolve_device}
use opti_gate.RateLimit.{is_limited}
use opti_gate.Portal.Password.{Pbkdf2, verify_password}
use opti_gate.Portal.Login.{Portal, needs_label, is_valid_device, update_device, user_named}
use opti_gate.Portal.Login.{
  coalesce, authenticated, sign_in, after_credentials, checked, login_device,
}
use opti_gate.Portal.Login.{handle_login}

is_some-coalesce : (o : Option ℕ) (x : ℕ) → is_some (coalesce o (some x)) ≡ true
is_some-coalesce none x = refl
is_some-coalesce (some y) x = refl

authenticated_grouped :
    (d : Device) (u : User) (label : String) (g : ℕ)
    → d.group_id ≡ some g
    → is_valid_device (authenticated u label d) ≡ false
unfolding authenticated is_valid_device
authenticated_grouped d u label g h = rw (h, is_some-coalesce d.user_id u.id) refl

module _ (pbkdf2 : Pbkdf2) (repr : String → String) (now : ℕ) (client_ip : String) where
  -- A login, not rate limited, with the right name and password of a user, from a device that has a
  -- group, and a name or is given one, raises: the row would have both a user and a group.
  pub handle_login-grouped :
      (p : Portal) (username password label : String) (db : Database) (d : Device) (u : User)
      (g : ℕ)
      → (is_limited p.limiter now client_ip).1 ≡ false
      → resolve_device p.db client_ip now ≡ some (db, some d)
      → (is_empty username || is_empty password) ≡ false
      → user_named db.users username ≡ some u
      → verify_password pbkdf2 password u.password_hash ≡ some true
      → (needs_label d && is_empty label) ≡ false
      → d.group_id ≡ some g
      → handle_login pbkdf2 repr now client_ip p username password label ≡ none
  unfolding handle_login login_device checked after_credentials sign_in update_device
  handle_login-grouped p username password label db d u g limited found filled named right asked h =
      rw (limited, found, filled, named, right, asked, authenticated_grouped d u label g h) refl
