-- ===== src/Proxy/Sni.antt =====
-- proxy/sni_helper.py: what Squid is answered for a TLS connection, by the name in its SNI. none is
-- an exception, which common/squid_helper.py answers with ERR.
use opti_gate.Base.{
  ℕ, String, Option, none, some, Bool, true, false, not, is_some, from_option, if◌then◌else◌,
}
use opti_gate.Base.{◌==◌, option_eq, string_eq, nat_eq}
use opti_gate.Tables.{Database, Domain, Mode, Device, User, AccessRow, row_of}
use opti_gate.Tables.{splice, bump, trusted}
use opti_gate.Platform.{Platform}
use opti_gate.Settings.{get_setting}
use opti_gate.Matching.Grants.{device_domain_reason}
use opti_gate.Matching.Lan.{ip_in_configured_lan}
use opti_gate.Identity.Resolve.{resolve_device, resolve_user_for_device, log_identity_fields}
use opti_gate.Proxy.Log.{log_access}
use opti_gate.Proxy.Domains.{find_domain}

abbrev pub is_bump : Mode → Bool
is_bump bump = true
is_bump splice = false
is_bump trusted = false

abbrev pub is_trusted : Mode → Bool
is_trusted trusted = true
is_trusted splice = false
is_trusted bump = false

abbrev pub is_splice : Mode → Bool
is_splice splice = true
is_splice bump = false
is_splice trusted = false

unfoldable pub handle_bump : Platform → Database → String → Bool
handle_bump π db sni = elim (find_domain π db sni) [ none ↦ false | some d ↦ is_bump d.mode ]

unfoldable pub handle_trusted : Platform → Database → String → Bool
handle_trusted π db sni = elim (find_domain π db sni) [ none ↦ false | some d ↦ is_trusted d.mode ]

-- The row of a decision, with who it is about.
unfoldable pub access_row :
    Option Device → Option User → String → String → Option String → Bool → String → AccessRow
access_row device user ip domain path allowed reason =
    let who = log_identity_fields device user in
    record {
      ts = 0;
      user_id = who.0;
      username = who.1;
      domain = domain;
      path = path;
      series_id = none;
      series_name = none;
      allowed = allowed;
      reason = reason;
      device_id = who.2;
      ip_address = some ip;
      block_source = none;
    }

unfoldable pub log_denial :
    Database → ℕ → String → String → Option Device → Option User → String → Database
log_denial db now sni reason device user client_ip =
    log_access db now (access_row device user client_ip sni none false reason)

-- The end of `handle_splice`, for a device.
unfoldable pub splice_device :
    Database → ℕ → String → String → Option Domain → Device → Database × Bool
splice_device db now client_ip sni domain device =
    let user = resolve_user_for_device db (some device) in
    elim domain [
      | none ↦ (
        log_access db now
            (access_row (some device) user client_ip sni none true "unconfigured_domain"),
        true,
      )
      | some d ↦
          let reason = device_domain_reason db (row_of device) d in
          let allowed = is_some reason in
          (
            log_access db now (
                access_row (some device) user client_ip sni none allowed
                  (from_option "domain_not_assigned" reason)),
            allowed,
          )
    ]

-- `domain is not None and domain["mode"] != "splice"`
unfoldable pub is_other_mode : Option Domain → Bool
is_other_mode none = false
is_other_mode (some d) = not (is_splice d.mode)

-- The part of `handle_splice` after the device is looked up.
unfoldable pub splice_resolved :
    ℕ
    → (client_ip sni : String) → Option Domain
    → Option (Database × Option Device)
    → Option (Database × Bool)
splice_resolved now client_ip sni domain none = none
splice_resolved now client_ip sni domain (some (db, none)) =
    some (log_denial db now sni "not_authenticated" none none client_ip, false)
splice_resolved now client_ip sni domain (some (db, some device)) =
    some (splice_device db now client_ip sni domain device)

unfoldable pub handle_splice :
    Platform → Database → ℕ → (client_ip sni : String) → Option (Database × Bool)
handle_splice π db now client_ip sni =
    let domain = find_domain π db sni in
    if is_other_mode domain
    then some (db, false)
    else if not (ip_in_configured_lan π db client_ip)
    then some (log_denial db now sni "outside_lan" none none client_ip, false)
    else splice_resolved now client_ip sni domain (resolve_device db client_ip now)

unfoldable pub handle_block_page : Database → Bool
handle_block_page db = get_setting db "block_page_mode" (some "terminate") == some "redirect"
