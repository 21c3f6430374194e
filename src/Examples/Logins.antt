-- ===== src/Examples/Logins.antt =====
-- Logins from one address, as the limiter and the captive portal treat them.
use opti_gate.Base.{ℕ, String, List, Option, some, none, [], ◌∷◌, ◌++◌, Bool, false, ◌≡◌, refl}
use opti_gate.Base.{leb, length, filter, arith, ◌==◌, string_eq, ◌>>=◌}
use opti_gate.Tables.{Database, Device}
use opti_gate.RateLimit.{RateLimiter, is_limited, is_recent, recent}
use opti_gate.RateLimit.Window.{Event, check, failure, run, failures, is_limited-run}
use opti_gate.Portal.Password.{Pbkdf2, verify_password}
use opti_gate.Portal.Login.{Portal, blank_form, signed_in, handle_login}
use opti_gate.Portal.Admin.{Form, handle_admin_action}
use opti_gate.Portal.SignedIn.{IsSignIn, handle_login-signed_in}
use opti_gate.Portal.BlockPage.{respond, forbidden}
use opti_gate.Portal.Blocked.{respond-forbidden}
use opti_gate.Proxy.Recorded.{IsRecorded}
use opti_gate.Portal.Grouped.{handle_login-grouped}
use opti_gate.Portal.Verified.{verify_password-hash_password}
use opti_gate.Base.{from_option}
use opti_gate.Examples.Household.{home, child, laptop, printer}

abbrev login_limiter : RateLimiter
login_limiter = record {
  max_attempts = 2;
  window_seconds = 60;
  attempts = ("10.0.0.10", 5 ∷ []) ∷ [];
}

abbrev tries : List Event
tries =
    failure 50 "10.0.0.10"
    ∷ check 55 "10.0.0.10"
    ∷ failure 60 "10.0.0.11"
    ∷ failure 60 "10.0.0.10"
    ∷ []

is_limited-run_example :
    (is_limited (run login_limiter tries) 80 "10.0.0.10").1
    ≡ leb 2 (
        length (
          recent login_limiter 80 "10.0.0.10"
          ++ filter (is_recent login_limiter 80) (failures "10.0.0.10" tries)))
unfolding opti_gate.RateLimit.Window.IsBefore
is_limited-run_example =
    is_limited-run login_limiter tries 80 "10.0.0.10" (tt, (ground arith, (tt, (tt, tt))))

-- A derivation that gives the password itself.
abbrev plain : Pbkdf2
plain password salt n = some password

verify_password-hash_password_example :
    verify_password plain "guess" "pbkdf2_sha256$260000$ab$secret" ≡ (do
      digest ← plain "guess" "ab" 260000
      expected ← plain "secret" "ab" 260000
      some (digest == expected))
unfolding opti_gate.Base.has_char opti_gate.Portal.Password.hash_password
verify_password-hash_password_example =
    verify_password-hash_password plain "ab" "secret" "guess" "pbkdf2_sha256$260000$ab$secret" refl
      refl

abbrev entrance : Portal
entrance = record { db = home; limiter = login_limiter }

abbrev quoted : String → String
quoted s = s

abbrev after_login : Portal
after_login =
    (from_option (entrance, blank_form)
      (handle_login plain quoted 200 "10.0.0.10" entrance "Child" "secret" "my laptop")).0

handle_login-signed_in_example :
    ((is_limited login_limiter 200 "10.0.0.10").1 ≡ false)
    × ((db : Database) × IsSignIn plain quoted 200 "10.0.0.10" entrance db "Child" "secret"
          "my laptop" after_login)
unfolding handle_login is_limited recent filter opti_gate.RateLimit.attempts_of is_recent
    opti_gate.Identity.Resolve.resolve_device opti_gate.Identity.Resolve.owner_of_ip
    opti_gate.Base.first_where opti_gate.Identity.Resolve.is_owned
    opti_gate.Identity.Bindings.holds_ip opti_gate.Tables.join_device opti_gate.Base.find?
    opti_gate.Portal.Login.login_device opti_gate.Portal.Login.checked
    opti_gate.Portal.Login.user_named opti_gate.Base.lower opti_gate.Base.any
    opti_gate.Base.contains opti_gate.Base.update_where opti_gate.Base.insert opti_gate.Base.sort_by
    opti_gate.Base.cut opti_gate.Base.int_of opti_gate.Base.is_space opti_gate.Base.lstrip
    opti_gate.Base.rstrip_by opti_gate.Base.strip opti_gate.Identity.Bindings.create_pending_device
    opti_gate.Identity.Bindings.pending_device opti_gate.Identity.Events.log_event
    opti_gate.Identity.Events.next_id opti_gate.Identity.Events.prune opti_gate.Identity.Events.take
    opti_gate.Identity.Resolve.adopt opti_gate.Identity.Resolve.adopted
    opti_gate.Identity.Resolve.heal opti_gate.Identity.Resolve.healed_device
    opti_gate.Identity.Resolve.is_adoptable opti_gate.Identity.Resolve.is_healed
    opti_gate.Identity.Resolve.is_orphaned opti_gate.Identity.Resolve.orphaned_binding
    opti_gate.Portal.Login.after_credentials opti_gate.Portal.Login.authenticated
    opti_gate.Portal.Login.has_bump_elsewhere opti_gate.Portal.Login.is_valid_device
    opti_gate.Portal.Login.label_or_none opti_gate.Portal.Login.log_failed_login
    opti_gate.Portal.Login.needs_label opti_gate.Portal.Login.sign_in
    opti_gate.Portal.Login.update_device opti_gate.Portal.Password.compare_digest
    opti_gate.Portal.Password.parse verify_password opti_gate.Proxy.Series.prefix
    opti_gate.RateLimit.is_entry opti_gate.RateLimit.record_failure opti_gate.RateLimit.set_attempts
    opti_gate.Tables.device_by_id
handle_login-signed_in_example =
    handle_login-signed_in plain quoted 200 "10.0.0.10" entrance "Child" "secret" "my laptop" false
      after_login refl

-- The laptop is assigned to a group.
abbrev shared : Device
shared = record laptop { user_id = none; group_id = some 7; label = some "tablet" }

abbrev shared_home : Portal
shared_home = record {
  db = record home { devices = shared ∷ printer ∷ [] };
  limiter = login_limiter;
}

handle_login-grouped_example :
    handle_login plain quoted 200 "10.0.0.10" shared_home "child" "secret" "" ≡ none
unfolding is_limited recent filter opti_gate.RateLimit.attempts_of is_recent
    opti_gate.Identity.Resolve.resolve_device opti_gate.Identity.Resolve.owner_of_ip
    opti_gate.Base.first_where opti_gate.Identity.Resolve.is_owned
    opti_gate.Identity.Bindings.holds_ip opti_gate.Tables.join_device opti_gate.Base.find?
    opti_gate.Portal.Login.user_named opti_gate.Base.lower verify_password
    opti_gate.Portal.Password.compare_digest opti_gate.Portal.Password.parse opti_gate.Base.any
    opti_gate.Base.update_where opti_gate.Base.insert opti_gate.Base.sort_by opti_gate.Base.cut
    opti_gate.Base.int_of opti_gate.Identity.Bindings.create_pending_device
    opti_gate.Identity.Bindings.pending_device opti_gate.Identity.Events.next_id
    opti_gate.Identity.Resolve.adopt opti_gate.Identity.Resolve.adopted
    opti_gate.Identity.Resolve.heal opti_gate.Identity.Resolve.healed_device
    opti_gate.Identity.Resolve.is_adoptable opti_gate.Identity.Resolve.is_healed
    opti_gate.Identity.Resolve.is_orphaned opti_gate.Identity.Resolve.orphaned_binding
    opti_gate.RateLimit.is_entry opti_gate.RateLimit.set_attempts opti_gate.Tables.device_by_id
    opti_gate.Portal.Login.needs_label opti_gate.Base.strip
handle_login-grouped_example =
    handle_login-grouped plain quoted 200 "10.0.0.10" shared_home "child" "secret" "" shared_home.db
      shared child 7 refl refl refl refl refl refl refl

abbrev administered : Portal
administered = record entrance {
  db = record home {
    settings = ("admin_username", "admin") ∷ ("admin_password_hash", "pbkdf2_sha256$1$aa$key") ∷ [];
  };
}

abbrev form : Form
form = record {
  admin_username = "admin";
  admin_password = "key";
  action = "bypass";
  label = "my laptop";
  group_id = "";
}

abbrev no_ids : String → Option ℕ
no_ids s = none

abbrev after_bypass : Portal
after_bypass =
    (from_option (administered, blank_form)
      (handle_admin_action no_ids plain quoted 200 "10.0.0.10" administered form)).0

respond-forbidden_example :
    ((respond quoted 200 "10.0.0.11" home "casino.example:80").1 ≡ forbidden "casino.example")
    × IsRecorded
        (respond quoted 200 "10.0.0.11" home "casino.example:80").0
        200
        "printer"
        "casino.example"
        false
unfolding opti_gate.Identity.Resolve.resolve_device opti_gate.Identity.Resolve.owner_of_ip
    opti_gate.Base.first_where opti_gate.Identity.Resolve.is_owned
    opti_gate.Identity.Bindings.holds_ip opti_gate.Tables.join_device opti_gate.Base.find?
    opti_gate.Base.lower opti_gate.Portal.BlockPage.without_port opti_gate.Base.cut
    opti_gate.Base.has_char opti_gate.Settings.optigate_hostname
    opti_gate.Identity.Resolve.log_identity_fields
    opti_gate.Identity.Resolve.resolve_user_for_device opti_gate.Identity.Resolve.label_of
respond-forbidden_example =
    respond-forbidden quoted 200 "10.0.0.11" home home (some printer) "casino.example:80" refl refl
