-- ===== src/Proxy/Cache.antt =====
-- common/series_resolve.py: what the cache gives back, and how long.
use opti_gate.Base.{
  ℕ, ◌+◌, ◌<◌, String, Option, none, some, Bool, true, false, List, [], ◌∷◌, ◌++◌, any, find?,
}
use opti_gate.Base.{◌≡◌, refl, inl, inr, ◌⊎◌, arith, Bool-cases, is_some}
use opti_gate.Base.{
  ◌==◌, nat_eq, string_eq, if◌then◌else◌, update_where, upper, is_empty, leb, beq_refl,
}
use opti_gate.Tables.{Database, SeriesCacheRow}
use opti_gate.Proxy.Series.{
  cache_get, cache_put, cached_row, stored_series, missing, positive_ttl_seconds,
  negative_ttl_seconds,
}

find?-updated :
    (p : SeriesCacheRow → Bool) (row : SeriesCacheRow) (rows : List SeriesCacheRow)
    → p row ≡ true
    → any p rows ≡ true
    → find? p (update_where p (λ r. row) rows) ≡ some row
unfolding find? update_where any
find?-updated p row [] h k = absurd (ground arith)
find?-updated p row (x ∷ rows) h k = elim (Bool-cases (p x)) [
  | inl q ↦ rw (q, h) refl
  | inr q ↦ rw (q, q) (find?-updated p row rows h (rw q at k))
]

find?-appended :
    (p : SeriesCacheRow → Bool) (row : SeriesCacheRow) (rows : List SeriesCacheRow)
    → p row ≡ true
    → any p rows ≡ false
    → find? p (rows ++ (row ∷ [])) ≡ some row
unfolding find? any
find?-appended p row [] h k = rw h refl
find?-appended p row (x ∷ rows) h k = elim (Bool-cases (p x)) [
  | inl q ↦ absurd (ground arith)
  | inr q ↦ rw q (find?-appended p row rows h (rw q at k))
]

-- After INSERT … ON CONFLICT DO UPDATE the key's row is the new one.
find?-upserted :
    (p : SeriesCacheRow → Bool) (row : SeriesCacheRow) (rows : List SeriesCacheRow)
    → p row ≡ true
    → find? p (if any p rows then update_where p (λ r. row) rows else rows ++ (row ∷ [])) ≡ some row
find?-upserted p row rows h = elim (Bool-cases (any p rows)) [
  | inl k ↦ rw k (find?-updated p row rows h k)
  | inr k ↦ rw k (find?-appended p row rows h k)
]

abbrev put_row : ℕ → String → Option String → SeriesCacheRow
put_row now object_id series_id = record {
  object_id = upper object_id;
  series_id = stored_series series_id;
  expires_at = now + (if is_some series_id then positive_ttl_seconds else negative_ttl_seconds);
}

cached_row-cache_put :
    (db : Database) (now : ℕ) (object_id : String) (series_id : Option String)
    → cached_row (cache_put db now object_id series_id) object_id
      ≡ some (put_row now object_id series_id)
unfolding cached_row cache_put
cached_row-cache_put db now object_id series_id =
    find?-upserted (λ (r : SeriesCacheRow). r.object_id == upper object_id)
      (put_row now object_id series_id) db.series_cache (beq_refl (upper object_id))

stored_series-some : (s : String) → is_empty (upper s) ≡ false → stored_series (some s) ≡ upper s
unfolding stored_series
stored_series-some s h = rw (stored_series, h) refl

-- Whatever the cache held of an object: a series that was stored of it is given back until its 30
-- days are over, and also later where stale entries are allowed.
pub cache_get-cache_put :
    (db : Database) (now later : ℕ) (object_id series_id : String) (allow_stale : Bool)
    → is_empty (upper series_id) ≡ false
    → (upper series_id == missing) ≡ false
    → (later < now + positive_ttl_seconds) ⊎ (allow_stale ≡ true)
    → cache_get (cache_put db now object_id (some series_id)) later object_id allow_stale
      ≡ some (some (upper series_id))
unfolding cache_get
cache_get-cache_put db now later object_id series_id allow_stale h k f =
    let e = cached_row-cache_put db now object_id (some series_id) in
    let q = stored_series-some series_id h in
    elim f [
      | inl l ↦
          let x : leb (now + positive_ttl_seconds) later ≡ false = ground arith in
          rw (cache_get, e, q, k, x) refl
      | inr a ↦ rw (cache_get, e, q, k, a) (ground arith)
    ]

-- A known absence is given back for an hour, and then it is a miss, stale entries allowed or not.
pub cache_get-cache_put_missing :
    (db : Database) (now later : ℕ) (object_id : String) (allow_stale : Bool)
    → cache_get (cache_put db now object_id none) later object_id allow_stale
      ≡ (if leb (now + negative_ttl_seconds) later then none else some none)
unfolding cache_get stored_series
cache_get-cache_put_missing db now later object_id allow_stale =
    rw (cache_get, cached_row-cache_put db now object_id none) refl
