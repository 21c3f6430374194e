-- ===== src/Proxy/Authz.antt =====
-- proxy/authz_helper.py, lines 57 to 181, and common/squid_helper.py: what Squid is answered for an
-- HTTP request. none is an exception.
use opti_gate.Base.{
  ℕ, String, Option, none, some, Bool, true, false, not, is_some, from_option, if◌then◌else◌,
}
use opti_gate.Base.{◌==◌, nat_eq, List, length, map, split_space, partition}
use Prim.Native.Char.{code}
use opti_gate.Tables.{Database, Domain, Mode, Kind, Device, User, row_of}
use opti_gate.Tables.{splice, bump, trusted, generic, crunchyroll}
use opti_gate.Platform.{Platform, Resolver}
use opti_gate.Matching.Grants.{device_domain_reason}
use opti_gate.Matching.Lan.{ip_in_configured_lan}
use opti_gate.Identity.Resolve.{resolve_device, resolve_user_for_device}
use opti_gate.Proxy.Log.{log_access}
use opti_gate.Proxy.Domains.{find_domain, root_of}
use opti_gate.Proxy.Sni.{access_row}
use opti_gate.Proxy.Shows.{path_allowed_or_bare_root, decide_crunchyroll}

-- `s.lstrip("[")`
unfoldable pub lstrip_bracket : String → String
lstrip_bracket String.[] = String.[]
lstrip_bracket (String.◌∷◌ c s) = if code c == b'[' then lstrip_bracket s else String.◌∷◌ c s

unfoldable pub starts_with_bracket : String → Bool
starts_with_bracket String.[] = false
starts_with_bracket (String.◌∷◌ c s) = code c == b'['

unfoldable pub split_host_port : String → String
split_host_port dst =
    if starts_with_bracket dst
    then lstrip_bracket (partition b']' dst).0
    else (partition b':' dst).0

module _ (π : Platform) (resolver : Resolver) (now : ℕ) (client_ip hostname path : String) where
  -- A decision that is logged with its reason.
  unfoldable pub decided : Database → Option Device → Option User → Bool → String → Database × Bool
  decided db device user allowed reason = (
    log_access db now (access_row device user client_ip hostname (some path) allowed reason),
    allowed,
  )

  -- A bump domain that the device is authorized for.
  unfoldable pub decide_bump :
      Database → Device → Domain → String → Kind → Option User → Database × Bool
  decide_bump db device domain reason crunchyroll none =
      decided db (some device) none false "show_requires_user"
  decide_bump db device domain reason crunchyroll (some user) =
      decide_crunchyroll now user hostname client_ip path π resolver db domain
  decide_bump db device domain reason generic user =
      if not (path_allowed_or_bare_root π db domain.id path)
      then decided db (some device) user false "path_not_allowed"
      else decided db (some device) user true reason

  -- The three modes, with the reason that authorizes the device, if any.
  unfoldable pub decide_mode :
      Database → Device → Domain → Option User → Mode → Option String → Database × Bool
  decide_mode db device domain user trusted reason = (db, true)
  decide_mode db device domain user splice reason =
      decided db (some device) user (is_some reason) (from_option "domain_not_assigned" reason)
  decide_mode db device domain user bump none =
      decided db (some device) user false "domain_not_assigned"
  decide_mode db device domain user bump (some reason) =
      decide_bump db device domain reason domain.kind user

  -- The decision for a device.
  unfoldable pub decide_device : Database → Device → Option Domain → Database × Bool
  decide_device db device none =
      decided db (some device) (resolve_user_for_device db (some device)) true "unconfigured_domain"
  decide_device db device (some domain) =
      decide_mode db device domain (resolve_user_for_device db (some device)) domain.mode
        (device_domain_reason db (row_of device) domain)

  unfoldable pub decide_resolved : Option (Database × Option Device) → Option (Database × Bool)
  decide_resolved none = none
  decide_resolved (some (db, none)) = some (db, false)
  decide_resolved (some (db, some device)) =
      some (decide_device db device (find_domain π db hostname))

  unfoldable pub decide_host : Database → Option (Database × Bool)
  decide_host db =
      if not (ip_in_configured_lan π db client_ip)
      then some (decided db none none false "outside_lan")
      else decide_resolved (resolve_device db client_ip now)

unfoldable pub decide :
    Platform → Resolver → Database → ℕ → (client_ip dst path : String) → Option (Database × Bool)
decide π resolver db now client_ip dst path =
    decide_host π resolver now client_ip (split_host_port dst) (root_of path) db

-- One line of the protocol: the wrong number of fields and an exception are answered with ERR.
unfoldable pub answer :
    Platform
    → (field_count : ℕ) → (Database → List String → Option (Database × Bool))
    → Database
    → String
    → Database × Bool
answer π field_count handler db line =
    let parts = split_space line in
    if length parts == field_count
    then from_option (db, false) (handler db (map π.unquote parts))
    else (db, false)
