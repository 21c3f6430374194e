-- ===== src/Proxy/Shows.antt =====
-- proxy/authz_helper.py, lines 57 to 77 and 184 to 271: paths, and the shows of a Crunchyroll request.
use opti_gate.Base.{
  ℕ, String, Option, none, some, Bool, true, false, not, ◌&&◌, List, [], ◌∷◌, ◌<>◌,
}
use opti_gate.Base.{◌==◌, nat_eq, string_eq, if◌then◌else◌, find?, any, is_empty}
use opti_gate.Tables.{Database, Domain, User, UserShow, AccessRow}
use opti_gate.Platform.{Platform, Resolver}
use opti_gate.Proxy.Log.{log_access}
use opti_gate.Proxy.Domains.{path_allowed, user_has_show}
use opti_gate.Proxy.Requests.{RequestKind, classify}
use opti_gate.Proxy.Series.{Resolved, series_of, resolve_series_ids}

unfoldable pub has_any_path_rules : Database → ℕ → Bool
has_any_path_rules db domain_id = any (λ (r : ℕ × String). r.0 == domain_id) db.domain_paths

unfoldable pub path_allowed_or_bare_root : Platform → Database → ℕ → String → Bool
path_allowed_or_bare_root π db domain_id path =
    if has_any_path_rules db domain_id then path_allowed π db domain_id path else path == "/"

unfoldable pub series_name : Database → Option String → Option String
series_name db none = none
series_name db (some series_id) =
    if is_empty series_id
    then none
    else elim (find? (λ (s : UserShow). s.series_id == series_id && not (is_empty s.series_name))
        db.user_shows) [ none ↦ none | some s ↦ some s.series_name ]

-- A row of `_decide_crunchyroll`, which names the user and not the device.
unfoldable pub show_row :
    Database → User → String → String → String → Bool → String → Option String → AccessRow
show_row db user hostname ip path allowed reason series_id = record {
  ts = 0;
  user_id = some user.id;
  username = user.username;
  domain = hostname;
  path = some path;
  series_id = series_id;
  series_name = series_name db series_id;
  allowed = allowed;
  reason = reason;
  device_id = none;
  ip_address = some ip;
  block_source = none;
}

abbrev pub show_reason : Bool → String
show_reason true = "show_approved"
show_reason false = "show_not_approved"

module _ (now : ℕ) (user : User) (hostname ip path : String) where
  unfoldable pub log_show : Database → Bool → Option String → Database
  log_show db show_ok series_id =
      log_access db now (show_row db user hostname ip path show_ok (show_reason show_ok) series_id)

  -- The loop over the series that the URL names.
  unfoldable pub check_shows : Database → List String → Database × Bool
  check_shows db [] = (db, true)
  check_shows db (i ∷ ids) =
      let show_ok = user_has_show db user.id i in
      let db' = log_show db show_ok (some i) in
      let (db'', rest) = check_shows db' ids in (db'', show_ok && rest)

  -- `series_id is not None and user_has_show(…)`
  unfoldable pub owns_series : Database → Option String → Bool
  owns_series db none = false
  owns_series db (some s) = user_has_show db user.id s

  -- The loop over the objects that the URL names.
  unfoldable pub check_objects : Resolved → Database → List String → Database × Bool
  check_objects resolved db [] = (db, true)
  check_objects resolved db (i ∷ ids) =
      let series_id = series_of resolved i in
      let show_ok = owns_series db series_id in
      let db' = log_show db show_ok series_id in
      let (db'', rest) = check_objects resolved db' ids in (db'', show_ok && rest)

  unfoldable pub deny_show : Database → String → Database × Bool
  deny_show db reason =
      (log_access db now (show_row db user hostname ip path false reason none), false)

  -- None of the resolver fails closed.
  unfoldable pub check_answer : Database → List String → Option Resolved → Database × Bool
  check_answer db ids none = deny_show db "resolution_failed"
  check_answer db ids (some resolved) = check_objects resolved db ids

  unfoldable pub check_resolved : Platform → Resolver → Database → List String → Database × Bool
  check_resolved π resolver db ids =
      let (db', answer) = resolve_series_ids π resolver db now ids in check_answer db' ids answer

  unfoldable pub decide_kind :
      Platform → Resolver → Database → Domain → List String → RequestKind → Database × Bool
  decide_kind π resolver db domain ids RequestKind.cms_objects = (db, true)
  decide_kind π resolver db domain ids RequestKind.blocked_shape = deny_show db "blocked_shape"
  decide_kind π resolver db domain ids RequestKind.other =
      if path_allowed_or_bare_root π db domain.id path
      then (db, true)
      else deny_show db "path_not_allowed"
  decide_kind π resolver db domain ids RequestKind.series_page = check_shows db ids
  decide_kind π resolver db domain ids RequestKind.up_next = check_shows db ids
  decide_kind π resolver db domain ids RequestKind.watch_page = check_resolved π resolver db ids
  decide_kind π resolver db domain ids RequestKind.playback = check_resolved π resolver db ids

  unfoldable pub decide_crunchyroll : Platform → Resolver → Database → Domain → Database × Bool
  decide_crunchyroll π resolver db domain =
      let request = classify π ("https://" <> hostname <> path) in
      decide_kind π resolver db domain request.ids request.kind
