-- ===== src/Proxy/ShowDenials.antt =====
-- proxy/authz_helper.py, lines 203 to 271: the denials of a Crunchyroll request are in the access log.
use opti_gate.Base.{ℕ, String, Option, none, some, Bool, true, false, ◌&&◌, List, [], ◌∷◌}
use opti_gate.Base.{◌≡◌, refl, inl, inr, arith, Bool-cases, subst}
use opti_gate.Tables.{Database, Domain, User, AccessRow}
use opti_gate.Platform.{Platform, Resolver}
use opti_gate.Proxy.Log.{log_access}
use opti_gate.Proxy.Domains.{user_has_show}
use opti_gate.Proxy.Requests.{RequestKind}
use opti_gate.Proxy.Series.{Resolved, series_of, resolve_series_ids}
use opti_gate.Proxy.Shows.{
  log_show, show_row, show_reason, check_shows, check_objects, owns_series, deny_show, check_answer,
  check_resolved,
}
use opti_gate.Proxy.Shows.{decide_kind, path_allowed_or_bare_root}
use opti_gate.Proxy.Recorded.{IsRecorded, log_access_lem, IsRecorded-log_access}

-- A denial of the name for the person is in the log, with a time in the last five minutes.
abbrev pub HasDenial : Database → ℕ → (username hostname : String) → Type 0
HasDenial db now username hostname = IsRecorded db now username hostname false

-- A decision that is a denial is in the log.
abbrev pub IsLogged : Database × Bool → ℕ → (username hostname : String) → Type 0
IsLogged x now username hostname = x.1 ≡ false → HasDenial x.0 now username hostname

HasDenial-log_access :
    (db : Database) (now : ℕ) (e : AccessRow) (username hostname : String)
    → HasDenial db now username hostname
    → HasDenial (log_access db now e) now username hostname
HasDenial-log_access db now e username hostname h =
    IsRecorded-log_access db now e username hostname false h

and_rest : (a b : Bool) → a ≡ true → (a && b) ≡ false → b ≡ false
and_rest a b h k = ground arith

module _ (now : ℕ) (user : User) (hostname ip path : String) where
  log_show-HasDenial :
      (db : Database) (show_ok : Bool) (series_id : Option String)
      → show_ok ≡ false
      → HasDenial
          (log_show now user hostname ip path db show_ok series_id)
          now
          user.username
          hostname
  unfolding log_show show_row
  log_show-HasDenial db show_ok series_id h =
      let e = show_row db user hostname ip path show_ok (show_reason show_ok) series_id in
      subst (IsRecorded (log_access db now e) now user.username hostname) h
        (log_access_lem db now e)

  HasDenial-log_show :
      (db : Database) (show_ok : Bool) (series_id : Option String)
      → HasDenial db now user.username hostname
      → HasDenial
          (log_show now user hostname ip path db show_ok series_id)
          now
          user.username
          hostname
  unfolding log_show
  HasDenial-log_show db show_ok series_id h = HasDenial-log_access db now _ user.username hostname h

  check_shows_kept :
      (ids : List String) (db : Database)
      → HasDenial db now user.username hostname
      → HasDenial (check_shows now user hostname ip path db ids).0 now user.username hostname
  unfolding check_shows
  check_shows_kept [] db h = h
  check_shows_kept (i ∷ ids) db h =
      check_shows_kept ids _ (HasDenial-log_show db (user_has_show db user.id i) (some i) h)

  check_shows-IsLogged :
      (ids : List String) (db : Database)
      → IsLogged (check_shows now user hostname ip path db ids) now user.username hostname
  unfolding check_shows
  check_shows-IsLogged [] db h = absurd (ground arith)
  check_shows-IsLogged (i ∷ ids) db h =
      let ok = user_has_show db user.id i in
      let db' = log_show now user hostname ip path db ok (some i) in
      elim (Bool-cases ok) [
        | inl k ↦ check_shows-IsLogged ids db' (and_rest ok _ k h)
        | inr k ↦ check_shows_kept ids db' (log_show-HasDenial db ok (some i) k)
      ]

  check_objects_kept :
      (resolved : Resolved) (ids : List String) (db : Database)
      → HasDenial db now user.username hostname
      → HasDenial
          (check_objects now user hostname ip path resolved db ids).0
          now
          user.username
          hostname
  unfolding check_objects
  check_objects_kept resolved [] db h = h
  check_objects_kept resolved (i ∷ ids) db h =
      let s = series_of resolved i in
      check_objects_kept resolved ids _
        (HasDenial-log_show db (owns_series now user hostname ip path db s) s h)

  check_objects-IsLogged :
      (resolved : Resolved) (ids : List String) (db : Database)
      → IsLogged
          (check_objects now user hostname ip path resolved db ids)
          now
          user.username
          hostname
  unfolding check_objects
  check_objects-IsLogged resolved [] db h = absurd (ground arith)
  check_objects-IsLogged resolved (i ∷ ids) db h =
      let s = series_of resolved i in
      let ok = owns_series now user hostname ip path db s in
      let db' = log_show now user hostname ip path db ok s in
      elim (Bool-cases ok) [
        | inl k ↦ check_objects-IsLogged resolved ids db' (and_rest ok _ k h)
        | inr k ↦ check_objects_kept resolved ids db' (log_show-HasDenial db ok s k)
      ]

  deny_show-IsLogged :
      (db : Database) (reason : String)
      → IsLogged (deny_show now user hostname ip path db reason) now user.username hostname
  unfolding deny_show show_row
  deny_show-IsLogged db reason h =
      let e = show_row db user hostname ip path false reason none in log_access_lem db now e

  check_answer-IsLogged :
      (db : Database) (ids : List String) (answer : Option Resolved)
      → IsLogged (check_answer now user hostname ip path db ids answer) now user.username hostname
  unfolding check_answer
  check_answer-IsLogged db ids none h = deny_show-IsLogged db "resolution_failed" h
  check_answer-IsLogged db ids (some r) h = check_objects-IsLogged r ids db h

  check_resolved-IsLogged :
      (π : Platform) (resolver : Resolver) (db : Database) (ids : List String)
      → IsLogged
          (check_resolved now user hostname ip path π resolver db ids)
          now
          user.username
          hostname
  unfolding check_resolved
  check_resolved-IsLogged π resolver db ids h =
      check_answer-IsLogged _ ids (resolve_series_ids π resolver db now ids).1 h

  pub decide_kind-IsLogged :
      (π : Platform) (resolver : Resolver) (db : Database) (domain : Domain) (ids : List String)
      (kind : RequestKind)
      → IsLogged
          (decide_kind now user hostname ip path π resolver db domain ids kind)
          now
          user.username
          hostname
  unfolding decide_kind deny_show
  decide_kind-IsLogged π resolver db domain ids RequestKind.cms_objects h = absurd (ground arith)
  decide_kind-IsLogged π resolver db domain ids RequestKind.blocked_shape h =
      deny_show-IsLogged db "blocked_shape" h
  decide_kind-IsLogged π resolver db domain ids RequestKind.other h =
      elim (Bool-cases (path_allowed_or_bare_root π db domain.id path)) [
        | inl k ↦ absurd (let q = rw (decide_kind, k) at h in ground arith)
        | inr k ↦ rw (decide_kind, k) (deny_show-IsLogged db "path_not_allowed" refl)
      ]
  decide_kind-IsLogged π resolver db domain ids RequestKind.series_page h =
      check_shows-IsLogged ids db h
  decide_kind-IsLogged π resolver db domain ids RequestKind.up_next h =
      check_shows-IsLogged ids db h
  decide_kind-IsLogged π resolver db domain ids RequestKind.watch_page h =
      check_resolved-IsLogged π resolver db ids h
  decide_kind-IsLogged π resolver db domain ids RequestKind.playback h =
      check_resolved-IsLogged π resolver db ids h
