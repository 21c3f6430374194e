-- ===== src/Adguard/Deny.antt =====
-- controller/adguard_sync.py, lines 389 to 632: the deny rules of the domains in mode bump and in mode
-- splice, and the rules that withhold the HTTPS record of a domain in mode bump.
-- `eligible_devices` is always given, as `sync_once` does.
use opti_gate.Base.{String, List, [], ◌∷◌, Option, Bool, true, false, not}
use opti_gate.Base.{if◌then◌else◌, ◌&&◌, filter, sort_by, leb, is_some}
use opti_gate.Tables.{Database, Domain, Mode, PolicyRow, splice, bump, trusted}
use opti_gate.Matching.Grants.{device_domain_reason}
use opti_gate.Policy.Class.{bump_eligible}
use opti_gate.Adguard.Scoped.{scoped_rules}
use opti_gate.Adguard.Rule.{domain_rule, ech_strip_rule}

abbrev pub mode_beq : Mode → Mode → Bool
mode_beq splice splice = true
mode_beq bump bump = true
mode_beq trusted trusted = true
mode_beq _ _ = false

-- WHERE mode = ? ORDER BY id
unfoldable pub domains_in_mode : Database → Mode → List Domain
unfolding filter sort_by
domains_in_mode db mode =
    sort_by (λ (a b : Domain). leb a.id b.id)
      (filter (λ (d : Domain). mode_beq d.mode mode) db.domains)

module _ (db : Database) where
  unfoldable pub is_authorized : (require_bump_eligible : Bool) → Domain → PolicyRow → Bool
  is_authorized require_bump_eligible domain row =
      let authorized = is_some (device_domain_reason db row.device domain) in
      if require_bump_eligible then authorized && bump_eligible row.device false else authorized

  module _ (require_bump_eligible : Bool) (block_page_ip : Option String)
      (devices : List PolicyRow) where
    unfoldable pub deny_rules : List Domain → List String
    unfolding scoped_rules
    deny_rules =
        scoped_rules (λ (domain : Domain) ips. domain_rule domain.pattern ips block_page_ip)
          (λ domain row. not (is_authorized require_bump_eligible domain row)) devices

  unfoldable pub build_domain_deny_rules :
      Mode → (require_bump_eligible : Bool) → Option String → List PolicyRow → List String
  unfolding deny_rules domains_in_mode
  build_domain_deny_rules mode require_bump_eligible block_page_ip [] = []
  build_domain_deny_rules mode require_bump_eligible block_page_ip (row ∷ rows) =
      deny_rules require_bump_eligible block_page_ip (row ∷ rows) (domains_in_mode db mode)

  unfoldable pub build_rules : Option String → List PolicyRow → List String
  unfolding build_domain_deny_rules
  build_rules = build_domain_deny_rules bump true

  unfoldable pub build_splice_deny_rules : Option String → List PolicyRow → List String
  unfolding build_domain_deny_rules
  build_splice_deny_rules = build_domain_deny_rules splice false

  unfoldable pub is_stripped : Domain → PolicyRow → Bool
  is_stripped domain row =
      if not (bump_eligible row.device false)
      then false
      else is_some (device_domain_reason db row.device domain)

  unfoldable pub strip_rules : List PolicyRow → List Domain → List String
  unfolding scoped_rules
  strip_rules =
      scoped_rules (λ (domain : Domain) ips. ech_strip_rule domain.pattern ips) is_stripped

  unfoldable pub build_ech_strip_rules : List PolicyRow → List String
  unfolding strip_rules domains_in_mode
  build_ech_strip_rules [] = []
  build_ech_strip_rules (row ∷ rows) = strip_rules (row ∷ rows) (domains_in_mode db bump)
