-- ===== src/Examples/Requests.antt =====
-- Requests of the laptop, of the printer, and from an unknown address.
use opti_gate.Base.{
  ℕ, String, Option, none, some, List, [], ◌∷◌, Bool, true, false, ◌≡◌, refl, inl, inr, In, ◌⊎◌,
  ◌≤◌, every, arith, ltb,
}
use opti_gate.Tables.{Database, Domain, AccessRow}
use opti_gate.Platform.{Resolver}
use opti_gate.Matching.Lan.{ip_in_configured_lan}
use opti_gate.Identity.Resolve.{resolve_device}
use opti_gate.Proxy.Log.{log_access}
use opti_gate.Proxy.Domains.{
  find_domain, matches, domain_regex, normalized_hostname, root_of, user_has_show,
}
use opti_gate.Proxy.Sni.{handle_splice, access_row}
use opti_gate.Proxy.Authz.{decide, decide_host, split_host_port}
use opti_gate.Proxy.Permitted.{IsAllowed, decide-IsAllowed}
use opti_gate.Proxy.Denials.{HasDeviceDenial, decide-HasDenial}
use opti_gate.Proxy.ShowDenials.{HasDenial}
use opti_gate.Proxy.Agreement.{IsUnconfiguredOrSpliced, answer_of, handle_splice-decide_host}
use opti_gate.Examples.Household.{platform, home, homework}

abbrev offline : Resolver
offline = λ ids. inl "no network"

abbrev laptop_row : AccessRow
laptop_row = record {
  ts = 50;
  user_id = some 1;
  username = "child";
  domain = "homework";
  path = some "/";
  series_id = none;
  series_name = none;
  allowed = true;
  reason = "user_domain";
  device_id = some 1;
  ip_address = some "10.0.0.10";
  block_source = none;
}

abbrev printer_row : AccessRow
printer_row = record {
  ts = 50;
  user_id = none;
  username = "printer";
  domain = "homework";
  path = some "/";
  series_id = none;
  series_name = none;
  allowed = false;
  reason = "domain_not_assigned";
  device_id = some 2;
  ip_address = some "10.0.0.11";
  block_source = none;
}

laptop_allowed :
    decide platform offline home 50 "10.0.0.10" "homework:80" ""
    ≡ some (record home { access_log = laptop_row ∷ [] }, true)
unfolding decide decide_host ip_in_configured_lan opti_gate.Base.strip
    opti_gate.Settings.get_setting opti_gate.Base.find? opti_gate.Proxy.Authz.decide_resolved
    resolve_device opti_gate.Identity.Resolve.owner_of_ip opti_gate.Base.first_where
    opti_gate.Identity.Resolve.is_owned opti_gate.Identity.Bindings.holds_ip
    opti_gate.Tables.join_device opti_gate.Proxy.Authz.decide_device find_domain normalized_hostname
    opti_gate.Base.lower split_host_port opti_gate.Proxy.Authz.starts_with_bracket
    opti_gate.Base.partition matches opti_gate.Proxy.Domains.search_with_timeout
    opti_gate.Proxy.Authz.decide_mode opti_gate.Proxy.Authz.decided log_access
    opti_gate.Matching.Grants.device_domain_reason opti_gate.Base.any opti_gate.Tables.row_of
    access_row opti_gate.Tables.has_pair opti_gate.Identity.Resolve.log_identity_fields root_of
    opti_gate.Identity.Resolve.resolve_user_for_device opti_gate.Identity.Resolve.user_by_id
laptop_allowed = refl

decide-IsAllowed_example :
    (ip_in_configured_lan platform home "10.0.0.10" ≡ true)
    × ((db' : Database) × IsAllowed platform offline 50 "10.0.0.10"
          (split_host_port "homework:80")
          (root_of "")
          home
          db')
decide-IsAllowed_example =
    decide-IsAllowed platform offline home (record home { access_log = laptop_row ∷ [] }) 50
      "10.0.0.10" "homework:80" "" laptop_allowed

printer_denied :
    decide platform offline home 50 "10.0.0.11" "homework:80" ""
    ≡ some (record home { access_log = printer_row ∷ [] }, false)
unfolding decide decide_host ip_in_configured_lan opti_gate.Base.strip
    opti_gate.Settings.get_setting opti_gate.Base.find? opti_gate.Proxy.Authz.decide_resolved
    resolve_device opti_gate.Identity.Resolve.owner_of_ip opti_gate.Base.first_where
    opti_gate.Identity.Resolve.is_owned opti_gate.Identity.Bindings.holds_ip
    opti_gate.Tables.join_device opti_gate.Proxy.Authz.decide_device find_domain normalized_hostname
    opti_gate.Base.lower split_host_port opti_gate.Proxy.Authz.starts_with_bracket
    opti_gate.Base.partition matches opti_gate.Proxy.Domains.search_with_timeout
    opti_gate.Proxy.Authz.decide_mode opti_gate.Proxy.Authz.decided log_access
    opti_gate.Matching.Grants.device_domain_reason opti_gate.Base.any opti_gate.Tables.row_of
    access_row opti_gate.Tables.has_pair opti_gate.Identity.Resolve.log_identity_fields root_of
    opti_gate.Identity.Resolve.resolve_user_for_device opti_gate.Identity.Resolve.label_of
printer_denied = refl

decide-HasDenial_example :
    ((ip_in_configured_lan platform home "10.0.0.11" ≡ false)
      × HasDenial (record home { access_log = printer_row ∷ [] }) 50 "(unauthenticated)" "homework")
    ⊎ ((ip_in_configured_lan platform home "10.0.0.11" ≡ true)
        × (HasDeviceDenial platform offline 50 "10.0.0.11" "homework" "/"
              (resolve_device home "10.0.0.11" 50)
              (record home { access_log = printer_row ∷ [] })
            ⊎ (resolve_device home "10.0.0.11" 50
                ≡ some (record home { access_log = printer_row ∷ [] }, none))))
unfolding split_host_port opti_gate.Proxy.Authz.starts_with_bracket opti_gate.Base.partition
decide-HasDenial_example =
    decide-HasDenial platform offline home (record home { access_log = printer_row ∷ [] }) 50
      "10.0.0.11" "homework:80" "" printer_denied

homework_found : find_domain platform home "homework" ≡ some homework
unfolding find_domain normalized_hostname opti_gate.Base.lower opti_gate.Base.rstrip_by
    opti_gate.Base.strip opti_gate.Base.find? opti_gate.Base.sort_by matches
    opti_gate.Proxy.Domains.search_with_timeout
homework_found = refl

spliced : IsUnconfiguredOrSpliced (find_domain platform home "homework")
spliced = inr (homework, homework_found, refl)

handle_splice-decide_host_example :
    answer_of (handle_splice platform home 50 "10.0.0.11" "homework")
    ≡ answer_of (decide_host platform offline 50 "10.0.0.11" "homework" "/" home)
handle_splice-decide_host_example =
    handle_splice-decide_host platform offline home 50 "10.0.0.11" "homework" "/" spliced
