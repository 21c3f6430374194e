-- ===== src/Adguard/Block.antt =====
-- controller/adguard_sync.py, lines 106 to 117, 287 to 351 and 901 to 917: the managed block in the
-- list of custom rules, and the part of it that never changes.
use opti_gate.Base.{String, List, [], ◌∷◌, ◌++◌, Option, none, some, map, if◌then◌else◌}
use opti_gate.Base.{◌==◌, string_eq}
use opti_gate.Adguard.Rule.{domain_rule_unscoped}

abbrev pub marker_begin : String
marker_begin =
    "! === optigate managed rules -- do not edit below this line, see docs/security/overview.md ==="

abbrev pub marker_end : String
marker_end = "! === end optigate managed rules ==="

abbrev pub doh_canary_domains : List String
doh_canary_domains = "use-application-dns.net" ∷ []

abbrev pub doh_provider_domains : List String
doh_provider_domains =
    "cloudflare-dns.com" ∷ "mozilla.cloudflare-dns.com" ∷ "dns.google" ∷ "dns.quad9.net"
    ∷ "doh.opendns.com" ∷ "dns.nextdns.io" ∷ "doh.cleanbrowsing.org" ∷ []

unfoldable pub build_anti_doh_rules : List String
build_anti_doh_rules =
    map (λ d. domain_rule_unscoped d none) (doh_canary_domains ++ doh_provider_domains)

abbrev prepend_first :
    String → Option (List String × List String) → Option (List String × List String)
prepend_first x none = none
prepend_first x (some (before, rest)) = some (x ∷ before, rest)

-- `rules[:i]` and `rules[i + 1:]` for `i = rules.index(marker)`; none where it raises.
unfoldable pub split_at : String → List String → Option (List String × List String)
split_at marker [] = none
split_at marker (rule ∷ rules) =
    let rest = split_at marker rules in
    if rule == marker then some ([], rules) else prepend_first rule rest

-- What is left of the rules after the begin marker, if there is an end marker.
abbrev pub after_end : Option (List String × List String) → List String
after_end none = []
after_end (some (managed, rest)) = rest

abbrev pub drop_block : List String → Option (List String × List String) → List String
drop_block rules none = rules
drop_block rules (some (before, rest)) = before ++ after_end (split_at marker_end rest)

unfoldable pub strip_managed_block : List String → List String
strip_managed_block rules = drop_block rules (split_at marker_begin rules)

-- `preserved if not managed else preserved + [_MARKER_BEGIN, *managed, _MARKER_END]`
unfoldable pub with_block : List String → List String → List String
with_block preserved [] = preserved
with_block preserved (rule ∷ managed) =
    preserved ++ (marker_begin ∷ ((rule ∷ managed) ++ (marker_end ∷ [])))
