-- ===== src/Proxy/Approved.antt =====
-- proxy/authz_helper.py, lines 203 to 271: what a Crunchyroll request that is allowed has.
use opti_gate.Base.{ℕ, String, Option, none, some, Bool, true, ◌&&◌, List, [], ◌∷◌, In}
use opti_gate.Base.{◌≡◌, refl, sym, ap, ◌∙◌, inl, inr, arith, Bool-cases, subst}
use opti_gate.Base.{any, ◌==◌, upper, nat_eq, string_eq, false-true}
use opti_gate.Tables.{Database, Domain, User, UserShow}
use opti_gate.Platform.{Platform, Resolver}
use opti_gate.Proxy.Domains.{user_has_show}
use opti_gate.Proxy.Requests.{RequestKind}
use opti_gate.Proxy.Series.{Resolved, series_of, resolve_series_ids}
use opti_gate.Proxy.Shows.{path_allowed_or_bare_root, check_shows, check_objects, owns_series}
use opti_gate.Proxy.Shows.{log_show, check_answer, check_resolved, decide_kind, deny_show}
use opti_gate.Proxy.Recorded.{log_access-user_shows}

-- What an allowed request of a kind has: nothing for catalogue metadata; an allowed path for an
-- ordinary page; every series that the URL names among the user's shows; for a video, an answer of
-- the resolver that gives each object of the URL a series among the user's shows. No request of a
-- blocked shape is allowed.
pub data IsApproved (π : Platform) (resolver : Resolver) (now : ℕ) (path : String) (db : Database)
    (domain : Domain) (user : User) (ids : List String) : RequestKind → Type 0 where
  metadata : IsApproved π resolver now path db domain user ids RequestKind.cms_objects
  page :
      path_allowed_or_bare_root π db domain.id path ≡ true
      → IsApproved π resolver now path db domain user ids RequestKind.other
  series :
      ((i : String) → In i ids → user_has_show db user.id i ≡ true)
      → IsApproved π resolver now path db domain user ids RequestKind.series_page
  next :
      ((i : String) → In i ids → user_has_show db user.id i ≡ true)
      → IsApproved π resolver now path db domain user ids RequestKind.up_next
  watched :
      (resolved : Resolved)
      → (resolve_series_ids π resolver db now ids).1 ≡ some resolved
      → ((i : String)
          → In i ids
          → (s : String) × (series_of resolved i ≡ some s)
            × (user_has_show (resolve_series_ids π resolver db now ids).0 user.id s ≡ true))
      → IsApproved π resolver now path db domain user ids RequestKind.watch_page
  played :
      (resolved : Resolved)
      → (resolve_series_ids π resolver db now ids).1 ≡ some resolved
      → ((i : String)
          → In i ids
          → (s : String) × (series_of resolved i ≡ some s)
            × (user_has_show (resolve_series_ids π resolver db now ids).0 user.id s ≡ true))
      → IsApproved π resolver now path db domain user ids RequestKind.playback

both : (a b : Bool) → (a && b) ≡ true → (a ≡ true) × (b ≡ true)
both a b h = (ground arith, ground arith)

module _ (now : ℕ) (user : User) (hostname ip path : String) where
  -- Logging changes nobody's shows.
  user_has_show-log_show :
      (db : Database) (ok : Bool) (id : Option String) (s : String)
      → user_has_show (log_show now user hostname ip path db ok id) user.id s
        ≡ user_has_show db user.id s
  unfolding user_has_show log_show
  user_has_show-log_show db ok id s =
      ap
        (λ (shows : List UserShow).
          any (λ (u : UserShow). u.user_id == user.id && u.series_id == upper s) shows)
        (log_access-user_shows db now _)

  check_shows-owned :
      (ids : List String) (db : Database)
      → (check_shows now user hostname ip path db ids).1 ≡ true
      → (i : String) → In i ids
      → user_has_show db user.id i ≡ true
  unfolding check_shows
  check_shows-owned [] db h i m = absurd m
  check_shows-owned (j ∷ ids) db h i m =
      let (first, rest) = both _ _ h in
      elim m [
        | inl e ↦ subst (λ z. user_has_show db user.id z ≡ true) (sym e) first
        | inr r ↦
            sym (user_has_show-log_show db (user_has_show db user.id j) (some j) i)
            ∙ check_shows-owned ids _ rest i r
      ]

  -- The object has a series, which is one of the user's shows.
  abbrev IsOwned : Resolved → Database → String → Type 0
  IsOwned resolved db i =
      (s : String) × (series_of resolved i ≡ some s) × (user_has_show db user.id s ≡ true)

  owns_series-some :
      (db : Database) (o : Option String)
      → owns_series now user hostname ip path db o ≡ true
      → (s : String) × (o ≡ some s) × (user_has_show db user.id s ≡ true)
  unfolding owns_series
  owns_series-some db none h = absurd (false-true h)
  owns_series-some db (some s) h = (s, refl, h)

  check_objects-IsOwned :
      (resolved : Resolved) (ids : List String) (db : Database)
      → (check_objects now user hostname ip path resolved db ids).1 ≡ true
      → (i : String) → In i ids
      → IsOwned resolved db i
  unfolding check_objects
  check_objects-IsOwned resolved [] db h i m = absurd m
  check_objects-IsOwned resolved (j ∷ ids) db h i m =
      let (first, rest) = both _ _ h in
      elim m [
        | inl e ↦ subst (IsOwned resolved db) (sym e) (owns_series-some db _ first)
        | inr r ↦
            let (s, e, k) = check_objects-IsOwned resolved ids _ rest i r in
            (s, e, sym (user_has_show-log_show db _ _ s) ∙ k)
      ]

  check_answer-IsOwned :
      (db : Database) (ids : List String) (answer : Option Resolved)
      → (check_answer now user hostname ip path db ids answer).1 ≡ true
      → (resolved : Resolved) × (answer ≡ some resolved)
        × ((i : String) → In i ids → IsOwned resolved db i)
  unfolding check_answer deny_show
  check_answer-IsOwned db ids none h = absurd (false-true h)
  check_answer-IsOwned db ids (some r) h = (r, refl, check_objects-IsOwned r ids db h)

  pub decide_kind-IsApproved :
      (π : Platform) (resolver : Resolver) (db : Database) (domain : Domain) (ids : List String)
      (kind : RequestKind)
      → (decide_kind now user hostname ip path π resolver db domain ids kind).1 ≡ true
      → IsApproved π resolver now path db domain user ids kind
  unfolding decide_kind deny_show check_resolved
  decide_kind-IsApproved π resolver db domain ids RequestKind.cms_objects h = metadata
  decide_kind-IsApproved π resolver db domain ids RequestKind.blocked_shape h =
      absurd (false-true h)
  decide_kind-IsApproved π resolver db domain ids RequestKind.other h =
      elim (Bool-cases (path_allowed_or_bare_root π db domain.id path)) [
        | inl k ↦ page k
        | inr k ↦ absurd (false-true (rw (decide_kind, k) at h))
      ]
  decide_kind-IsApproved π resolver db domain ids RequestKind.series_page h =
      series (check_shows-owned ids db h)
  decide_kind-IsApproved π resolver db domain ids RequestKind.up_next h =
      next (check_shows-owned ids db h)
  decide_kind-IsApproved π resolver db domain ids RequestKind.watch_page h =
      let (r, e, f) = check_answer-IsOwned _ ids (resolve_series_ids π resolver db now ids).1 h in
      watched r e f
  decide_kind-IsApproved π resolver db domain ids RequestKind.playback h =
      let (r, e, f) = check_answer-IsOwned _ ids (resolve_series_ids π resolver db now ids).1 h in
      played r e f
