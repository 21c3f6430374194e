-- ===== src/Proxy/Series.antt =====
-- common/series_resolve.py: the parent series of an object, from the cache or from the resolver.
use opti_gate.Base.{
  ℕ, zero, suc, ◌+◌, String, Option, none, some, Bool, true, false, not, ◌&&◌, List, [], ◌∷◌, ◌++◌,
}
use opti_gate.Base.{
  ◌==◌, nat_eq, string_eq, if◌then◌else◌, find?, filter, any, update_where, leb, upper, is_empty,
}
use opti_gate.Base.{inl, inr, ◌<>◌, is_some}
use opti_gate.Tables.{Database, SeriesCacheRow}
use opti_gate.Platform.{Platform, Resolver}
use opti_gate.Settings.{get_setting, set_setting}

abbrev pub positive_ttl_seconds : ℕ
positive_ttl_seconds = 2592000

abbrev pub negative_ttl_seconds : ℕ
negative_ttl_seconds = 3600

abbrev pub missing : String
missing = "__missing__"

abbrev pub resolver_error_key : String
resolver_error_key = "cr_resolver_last_error"

unfoldable pub cached_row : Database → String → Option SeriesCacheRow
cached_row db object_id =
    find? (λ (r : SeriesCacheRow). r.object_id == upper object_id) db.series_cache

-- none is a miss, some none a known absence.
unfoldable pub cache_get : Database → ℕ → String → (allow_stale : Bool) → Option (Option String)
cache_get db now object_id allow_stale = elim (cached_row db object_id) [
  | none ↦ none
  | some row ↦
      let expired = leb row.expires_at now in
      if row.series_id == missing
      then if expired then none else some none
      else if expired && not allow_stale
      then none
      else some (some row.series_id)
]

-- `series_id or _MISSING`
unfoldable pub stored_series : Option String → String
stored_series none = missing
stored_series (some s) = let u = upper s in if is_empty u then missing else u

unfoldable pub cache_put : Database → ℕ → String → Option String → Database
cache_put db now object_id series_id =
    let key = upper object_id in
    let ttl = if is_some series_id then positive_ttl_seconds else negative_ttl_seconds in
    let row : SeriesCacheRow = record {
      object_id = key;
      series_id = stored_series series_id;
      expires_at = now + ttl;
    } in
    record db {
      series_cache =
          if any (λ (r : SeriesCacheRow). r.object_id == key) db.series_cache
          then update_where (λ (r : SeriesCacheRow). r.object_id == key) (λ r. row) db.series_cache
          else db.series_cache ++ (row ∷ []);
    }

-- `text[:n]`
unfoldable pub prefix : ℕ → String → String
prefix zero s = String.[]
prefix (suc n) String.[] = String.[]
prefix (suc n) (String.◌∷◌ c s) = String.◌∷◌ c (prefix n s)

unfoldable pub record_resolver_error : Platform → Database → ℕ → String → Database
record_resolver_error π db now exc =
    set_setting db resolver_error_key (prefix 500 (π.isoformat now <> " " <> exc))

unfoldable pub clear_resolver_error : Database → Database
clear_resolver_error db = elim (get_setting db resolver_error_key none) [
  | none ↦ db
  | some e ↦ record db {
    settings = filter (λ (r : String × String). not (r.0 == resolver_error_key)) db.settings;
  }
]

-- `dict.get` of a table of ids, whose later entries replace earlier ones.
abbrev pub Resolved : Type 0
Resolved = List (String × Option String)

unfoldable pub series_of : Resolved → String → Option String
series_of resolved object_id =
    elim (find? (λ (r : String × Option String). r.0 == object_id) resolved) [
      | none ↦ none
      | some r ↦ r.1
    ]

-- The first loop: what the cache knows, and the ids that it does not.
unfoldable pub lookup_cached : Database → ℕ → List String → Resolved × List String
lookup_cached db now [] = ([], [])
lookup_cached db now (i ∷ ids) =
    let (resolved, unknown) = lookup_cached db now ids in
    elim (cache_get db now i false) [
      | some s ↦ ((i, s) ∷ resolved, unknown)
      | none ↦ (resolved, i ∷ unknown)
    ]

-- The loop of the fallback: positive entries of any age; none where one is missing.
unfoldable pub lookup_stale : Database → ℕ → List String → Option Resolved
lookup_stale db now [] = some []
lookup_stale db now (i ∷ ids) =
    let rest = lookup_stale db now ids in
    elim (cache_get db now i true) [
      | some (some s) ↦ elim rest [ none ↦ none | some r ↦ some ((i, some s) ∷ r) ]
      | some none ↦ none
      | none ↦ none
    ]

-- The loop that stores what the resolver answered.
unfoldable pub store_fetched : Database → ℕ → Resolved → List String → Database × Resolved
store_fetched db now fetched [] = (db, [])
store_fetched db now fetched (i ∷ ids) =
    let s = series_of fetched i in
    let (db', rest) = store_fetched (cache_put db now i s) now fetched ids in (db', (i, s) ∷ rest)

unfoldable pub resolve_unknown :
    Platform → Resolver → Database → ℕ → Resolved → List String → Database × Option Resolved
resolve_unknown π resolver db now resolved unknown = elim (resolver unknown) [
  | inl exc ↦
      let db' = record_resolver_error π db now exc in
      elim (lookup_stale db' now unknown) [
        | none ↦ (db', none)
        | some stale ↦ (db', some (stale ++ resolved))
      ]
  | inr fetched ↦
      let (db', new) = store_fetched (clear_resolver_error db) now fetched unknown in
      (db', some (new ++ resolved))
]

unfoldable pub resolve_series_ids :
    Platform → Resolver → Database → ℕ → List String → Database × Option Resolved
resolve_series_ids π resolver db now object_ids =
    let (resolved, unknown) = lookup_cached db now object_ids in
    elim unknown [
      | [] ↦ (db, some resolved)
      | i ∷ rest ↦ resolve_unknown π resolver db now resolved (i ∷ rest)
    ]
