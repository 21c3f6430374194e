-- ===== src/Controller/Capped.antt =====
-- Identity/Events (log_event): the table of events stays within its bound, and keeps the new event.
use opti_gate.Base.{ℕ, suc, zero, String, List, [], ◌∷◌, ◌++◌, Option, Bool, true}
use opti_gate.Base.{◌≡◌, refl, sym, subst, inl, inr, ◌≤◌, ◌<◌, arith, map, map-append, length}
use opti_gate.Base.{
  In, In-map, map-In, filter-In, In-filter, contains-In, In-contains, contains, filter,
}
use opti_gate.Base.{NoDup, NoDup-length, length-map, leb, nat_eq, sort_by, In-sort_by, sort_by-In}
use opti_gate.Base.{
  IsSorted, sort_by-IsSorted, IsOrder, all-in, append-In, In-append_right, Bool-cases,
}
use opti_gate.Tables.{Database, SystemEvent, Severity}
use opti_gate.Identity.Events.{next_id, take, prune, log_event}

ids : List SystemEvent → List ℕ
ids = map (λ (e : SystemEvent). e.id)

abbrev newest_first : ℕ → ℕ → Bool
newest_first a b = leb b a

newest_first-IsOrder : IsOrder newest_first
newest_first-IsOrder = record { total = λ a b h. ground arith; trans = λ a b c h k. ground arith }

next_id-fresh : (i : ℕ) (xs : List ℕ) → In i xs → i < next_id xs
unfolding next_id
next_id-fresh i [] m = absurd m
next_id-fresh i (x ∷ xs) (inl e) = ground arith
next_id-fresh i (x ∷ xs) (inr m) = let h = next_id-fresh i xs m in ground arith

length-take : (n : ℕ) (xs : List ℕ) → length (take n xs) ≤ n
unfolding take
length-take zero xs = omega arith
length-take (suc n) [] = omega arith
length-take (suc n) (x ∷ xs) = let h = length-take n xs in omega arith

take-head : (n x : ℕ) (xs : List ℕ) → 0 < n → In x (take n (x ∷ xs))
unfolding take
take-head zero x xs h = absurd (omega arith)
take-head (suc n) x xs h = inl refl

-- The largest value of a list is among the first that `prune` keeps.
largest-In :
    (n k : ℕ) (xs : List ℕ)
    → 0 < k
    → In n xs
    → ((i : ℕ) → In i xs → i ≤ n)
    → In n (take k (sort_by newest_first xs))
largest-In n k xs p m h =
    go (sort_by newest_first xs) (In-sort_by newest_first n xs m)
      (λ i j. h i (sort_by-In newest_first i xs j))
      (sort_by-IsSorted newest_first newest_first-IsOrder xs)
  where
    go :
        (ys : List ℕ)
        → In n ys
        → ((i : ℕ) → In i ys → i ≤ n)
        → IsSorted newest_first ys
        → In n (take k ys)
    go [] i f s = absurd i
    go (y ∷ ys) (inl e) f s = subst (λ z. In z (take k (y ∷ ys))) (sym e) (take-head k y ys p)
    go (y ∷ ys) (inr i) f s =
        let a : leb n y ≡ true = all-in (λ z. newest_first y z ≡ true) n ys s.0 i in
        let b = f y (inl refl) in
        let e : n ≡ y = ground arith in
        subst (λ z. In z (take k (y ∷ ys))) (sym e) (take-head k y ys p)

module _ (p : SystemEvent → Bool) where
  filter-NoDup : (xs : List SystemEvent) → NoDup (ids xs) → NoDup (ids (filter p xs))
  unfolding ids filter
  filter-NoDup [] n = tt
  filter-NoDup (x ∷ xs) n = elim (Bool-cases (p x)) [
    | inl e ↦ rw e (
      λ m.
          let (y, i, q) = map-In (λ (e : SystemEvent). e.id) x.id (filter p xs) m in
          n.0 (
            subst (λ z. In z (ids xs)) (sym q)
              (In-map (λ (e : SystemEvent). e.id) y xs (filter-In p y xs i).0)),
      filter-NoDup xs n.1,
    )
    | inr e ↦ rw e (filter-NoDup xs n.1)
  ]

append-NoDup : (xs : List ℕ) (x : ℕ) → NoDup xs → (In x xs → ⊥) → NoDup (xs ++ (x ∷ []))
append-NoDup [] x n h = (λ z. z, tt)
append-NoDup (y ∷ ys) x n h = (
  λ m. elim (append-In y ys (x ∷ []) m) [
    | inl i ↦ n.0 i
    | inr (inl e) ↦ h (inl (sym e))
    | inr (inr z) ↦ z
  ],
  append-NoDup ys x n.1 (λ m. h (inr m)),
)

module _ (limit : ℕ) (rows : List SystemEvent) (n : NoDup (ids rows)) where
  kept : SystemEvent → Bool
  kept e = contains (take limit (sort_by newest_first (ids rows))) e.id

  prune-length : length (filter kept rows) ≤ limit
  unfolding kept ids
  prune-length =
      let newest = take limit (sort_by newest_first (ids rows)) in
      let bound = NoDup-length (ids (filter kept rows)) newest (filter-NoDup kept rows n) (λ i m.
        let (e, j, q) = map-In (λ (e : SystemEvent). e.id) i (filter kept rows) m in
        subst (λ z. In z newest) (sym q) (contains-In e.id newest (filter-In kept e rows j).1)) in
      let counted = length-map (λ (e : SystemEvent). e.id) (filter kept rows) in
      let h = length-take limit (sort_by newest_first (ids rows)) in omega arith

next_id-fresh_not : (xs : List ℕ) → In (next_id xs) xs → ⊥
next_id-fresh_not xs m = let h = next_id-fresh (next_id xs) xs m in omega arith

next_id-largest : (xs : List ℕ) (i : ℕ) → In i (xs ++ (next_id xs ∷ [])) → i ≤ next_id xs
next_id-largest xs i m = elim (append-In i xs (next_id xs ∷ []) m) [
  | inl j ↦ let h = next_id-fresh i xs j in omega arith
  | inr (inl e) ↦ let h : i ≡ next_id xs = e in omega arith
  | inr (inr z) ↦ absurd z
]

-- After an event is logged the table has at most 5000 rows, no two of one id, and the new event is
-- one of them. It is assumed that no two rows had one id before.
pub log_event-capped :
    (db : Database) (now : ℕ) (source : String) (severity : Severity) (message : String)
    (detail : Option String)
    → NoDup (map (λ (e : SystemEvent). e.id) db.system_events)
    → (length (log_event db now source severity message detail).system_events ≤ 5000)
      × NoDup (
          map
            (λ (e : SystemEvent). e.id)
            (log_event db now source severity message detail).system_events)
      × ((e : SystemEvent) × In e (log_event db now source severity message detail).system_events
          × (e.ts ≡ now)
          × (e.source ≡ source)
          × (e.severity ≡ severity)
          × (e.message ≡ message))
unfolding log_event prune ids kept
log_event-capped db now source severity message detail n =
    let new : SystemEvent = record {
      id = next_id (ids db.system_events);
      ts = now;
      source = source;
      severity = severity;
      message = message;
      detail = detail;
    } in
    let rows = db.system_events ++ (new ∷ []) in
    let appended = map-append (λ (e : SystemEvent). e.id) db.system_events (new ∷ []) in
    let unique =
      subst NoDup (sym appended)
        (append-NoDup (ids db.system_events) new.id n (next_id-fresh_not (ids db.system_events))) in
    let there = In-append_right new db.system_events (new ∷ []) (inl refl) in
    let top =
      largest-In new.id 5000 (ids rows) (ground arith)
        (In-map (λ (e : SystemEvent). e.id) new rows there)
        (λ i m. next_id-largest (ids db.system_events) i (subst (In i) appended m)) in
    (
      prune-length 5000 rows unique,
      filter-NoDup (kept 5000 rows unique) rows unique,
      (
        new,
        In-filter (kept 5000 rows unique) new rows there
            (In-contains new.id (take 5000 (sort_by newest_first (ids rows))) top),
        refl,
        refl,
        refl,
        refl,
      ),
    )
