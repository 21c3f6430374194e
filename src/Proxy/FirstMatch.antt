-- ===== src/Proxy/FirstMatch.antt =====
-- common/matching.py, lines 163 to 183: the lowest-numbered matching domain decides.
use opti_gate.Base.{◌≤◌, String, some, Bool, true, List, [], ◌∷◌, find?, sort_by}
use opti_gate.Base.{
  ◌≡◌, refl, inl, inr, arith, Bool-cases, In, all-in, IsSorted, IsOrder, sort_by-IsSorted,
  In-sort_by, sort_by-In, find?-In,
}
use opti_gate.Base.{is_empty, subst}
use opti_gate.Tables.{Database, Domain}
use opti_gate.Platform.{Platform}
use opti_gate.Proxy.Domains.{find_domain, matches, domain_regex, normalized_hostname, by_id}

by_id-IsOrder : IsOrder by_id
unfolding by_id
by_id-IsOrder = record { total = λ a b h. ground arith; trans = λ a b c h k. ground arith }

-- The first that passes, of a sorted list, comes before every other that passes.
find?-least :
    (p : Domain → Bool) (d e : Domain) (xs : List Domain)
    → IsSorted by_id xs
    → find? p xs ≡ some d
    → In e xs
    → p e ≡ true
    → d.id ≤ e.id
unfolding find? by_id
find?-least p d e [] s h m k = absurd m
find?-least p d e (x ∷ xs) s h m k = elim (Bool-cases (p x)) [
  | inr q ↦ elim m [
    | inl r ↦ absurd (let w : p x ≡ true = subst (λ z. p z ≡ true) r k in ground arith)
    | inr r ↦ find?-least p d e xs s.1 (rw q at h) r k
  ]
  | inl q ↦
      let t : some x ≡ some d = rw q at h in
      let w : x ≡ d = ground arith in
      elim m [
        | inl r ↦ let v : d.id ≡ e.id = rw (r, ← w) refl in ground arith
        | inr r ↦
            let v = all-in (λ y. by_id x y ≡ true) e xs s.0 r in
            let u : by_id d e ≡ true = subst (λ z. by_id z e ≡ true) w v in ground arith
      ]
]

-- The domain that is found is configured, its pattern matches the name, and no matching domain has
-- a smaller id.
pub find_domain-some :
    (π : Platform) (db : Database) (hostname : String) (d : Domain)
    → find_domain π db hostname ≡ some d
    → In d db.domains
      × (matches π (domain_regex d.pattern) (normalized_hostname hostname) ≡ true)
      × ((e : Domain)
          → In e db.domains
          → matches π (domain_regex e.pattern) (normalized_hostname hostname) ≡ true
          → d.id ≤ e.id)
unfolding find_domain
find_domain-some π db hostname d h = elim (Bool-cases (is_empty (normalized_hostname hostname))) [
  | inl k ↦ absurd (let q = rw (find_domain, k) at h in ground arith)
  | inr k ↦
      let p = λ (z : Domain). matches π (domain_regex z.pattern) (normalized_hostname hostname) in
      let f : find? p (sort_by by_id db.domains) ≡ some d = rw (find_domain, k) at h in
      let (m, j) = find?-In p d _ f in
      (
        sort_by-In by_id d db.domains m,
        j,
        λ e me pe.
            find?-least p d e _ (sort_by-IsSorted by_id by_id-IsOrder db.domains) f
              (In-sort_by by_id e db.domains me) pe,
      )
]
