-- ===== src/Proxy/Domains.antt =====
-- common/matching.py, lines 14 to 39, 163 to 194 and 516 to 521: which configured domain a host name
-- is, and which paths and shows are allowed.
use opti_gate.Base.{
  ℕ, String, Option, none, Bool, true, false, ◌&&◌, find?, any, sort_by, leb, ◌<>◌,
}
use opti_gate.Base.{
  ◌==◌, nat_eq, string_eq, if◌then◌else◌, is_empty, strip, rstrip_by, lower, upper,
}
use opti_gate.Tables.{Database, Domain, UserShow}
use opti_gate.Platform.{Platform, found, not_found, timed_out}

-- `_search_with_timeout`: a search that the alarm stops is no match.
unfoldable pub search_with_timeout : Platform → String → String → Bool
search_with_timeout π pattern text = elim (π.search pattern text) [
  | found ↦ true
  | not_found ↦ false
  | timed_out ↦ false
]

-- `_domain_regex`: the pattern from a label's start to the end of the name.
unfoldable pub domain_regex : String → String
domain_regex pattern = "(?:^|\\.)(?:" <> pattern <> ")\\Z"

unfoldable pub matches : Platform → String → String → Bool
matches π regex text = π.compiles regex && search_with_timeout π regex text

unfoldable pub normalized_hostname : String → String
normalized_hostname hostname = lower (rstrip_by (λ c. c == b'.') (strip hostname))

unfoldable pub by_id : Domain → Domain → Bool
by_id a b = leb a.id b.id

unfoldable pub find_domain : Platform → Database → String → Option Domain
find_domain π db hostname =
    let name = normalized_hostname hostname in
    if is_empty name
    then none
    else find? (λ (d : Domain). matches π (domain_regex d.pattern) name) (sort_by by_id db.domains)

unfoldable pub root_of : String → String
root_of path = if is_empty path then "/" else path

unfoldable pub path_allowed : Platform → Database → ℕ → String → Bool
path_allowed π db domain_id path =
    any (λ (r : ℕ × String). r.0 == domain_id && matches π r.1 (root_of path)) db.domain_paths

unfoldable pub user_has_show : Database → ℕ → String → Bool
user_has_show db user_id series_id =
    any (λ (s : UserShow). s.user_id == user_id && s.series_id == upper series_id) db.user_shows
