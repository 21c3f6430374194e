-- ===== src/Adguard/Reconciled.antt =====
-- Adguard/Rewrites: which rewrites the deletions and the addition leave.
use opti_gate.Base.{String, List, [], ◌∷◌, ◌++◌, Option, some, true, false, not}
use opti_gate.Base.{◌≡◌, refl, sym, ap, ◌∙◌, subst, inl, inr, ◌⊎◌, if◌then◌else◌, Bool-cases}
use opti_gate.Base.{In, In-filter, filter-In, any, any-find, arith}
use opti_gate.Base.{In-append_left, In-append_right, append-In, string_eq, beq_refl, eq_of_beq}
use opti_gate.Adguard.Client.{Action, done, for_each, AdguardClient}
use opti_gate.Adguard.Client.{AdguardHome, IsDocumented, Rewrite, is_rewrite}
use opti_gate.Adguard.Keeps.{after-inv}
use opti_gate.Adguard.Rewrites.{reconcile_rewrites}

pub is_rewrite-eq :
    (domain answer : String) (r : Rewrite)
    → is_rewrite domain answer r ≡ true
    → (r.domain ≡ domain) × (r.answer ≡ answer)
is_rewrite-eq domain answer r h =
    (eq_of_beq r.domain domain (ground arith), eq_of_beq r.answer answer (ground arith))

pub is_rewrite_refl : (r : Rewrite) → is_rewrite r.domain r.answer r ≡ true
is_rewrite_refl r = ground (arith, beq_refl r.domain, beq_refl r.answer)

module _ {S : Type 0} (α : AdguardClient S) (home : S → AdguardHome)
    (law : IsDocumented α home) where
  abbrev rewrites : S → List Rewrite
  rewrites s = (home s).rewrites

  module _ (domain answer : String) where
    abbrev delete_stale : Rewrite → Action S Unit
    delete_stale r =
        if not (is_rewrite domain answer r) then α.delete_rewrite r.domain r.answer else done tt

    -- One of the rows is stale and has the rewrite's pair.
    abbrev IsDeleted : List Rewrite → Rewrite → Type 0
    IsDeleted rows r =
        (q : Rewrite) × In q rows
        × (is_rewrite domain answer q ≡ false)
        × (is_rewrite q.domain q.answer r ≡ true)

    delete_one :
        (q : Rewrite) (s t : S)
        → delete_stale q s ≡ (t, some tt)
        → (r : Rewrite)
        → (In r (rewrites t) → In r (rewrites s))
          × (In r (rewrites t)
              → is_rewrite domain answer q ≡ false
              → is_rewrite q.domain q.answer r ≡ false)
          × (In r (rewrites s)
              → ((is_rewrite domain answer q ≡ true) ⊎ (is_rewrite q.domain q.answer r ≡ false))
              → In r (rewrites t))
    delete_one q s t h r = elim (Bool-cases (is_rewrite domain answer q)) [
      | inl e ↦
          let same : s ≡ t = ap (λ (x : S × Option Unit). x.0) (rw e at h) in
          (
            subst (λ z. In r (rewrites z)) (sym same),
            λ _ f. absurd (ground arith),
            λ m _. subst (λ z. In r (rewrites z)) same m,
          )
      | inr e ↦
          let gone = ap (λ z. z.rewrites) (law.deletes_rewrite q.domain q.answer s t (rw e at h)) in
          let test = λ (z : Rewrite). not (is_rewrite q.domain q.answer z) in
          (
            λ m. (filter-In test r (rewrites s) (subst (In r) gone m)).0,
            λ m _. let k = (filter-In test r (rewrites s) (subst (In r) gone m)).1 in ground arith,
            λ m c. elim c [
              | inl f ↦ absurd (ground arith)
              | inr f ↦ subst (In r) (sym gone) (In-filter test r (rewrites s) m (ground arith))
            ],
          )
    ]

    delete_all :
        (rows : List Rewrite) (s t : S)
        → for_each delete_stale rows s ≡ (t, some tt)
        → (r : Rewrite)
        → (In r (rewrites t) → In r (rewrites s) × (IsDeleted rows r → ⊥))
          × (In r (rewrites s) → (IsDeleted rows r → ⊥) → In r (rewrites t))
    unfolding for_each
    delete_all [] s t h r =
        let same : s ≡ t = ap (λ (x : S × Option Unit). x.0) h in
        (
          λ m. (subst (λ z. In r (rewrites z)) (sym same) m, λ d. d.1),
          λ m _. subst (λ z. In r (rewrites z)) same m,
        )
    delete_all (q ∷ rows) s t h r =
        let (u, _, e, k) = after-inv (delete_stale q s) _ t tt h in
        let (back, gone, kept) = delete_one q s u e r in
        let (f, g) = delete_all rows u t k r in
        (
          λ m.
              let (i, n) = f m in
              (
                back i,
                λ (p, j, x, y). elim j [
                  | inl z ↦
                      let w : is_rewrite q.domain q.answer r ≡ true =
                        subst (λ v. is_rewrite v.domain v.answer r ≡ true) z y in
                      let w' = gone i (subst (λ v. is_rewrite domain answer v ≡ false) z x) in
                      absurd (ground arith)
                  | inr j' ↦ n (p, j', x, y)
                ],
              ),
          λ m n.
              g
                (kept m (elim (Bool-cases (is_rewrite domain answer q)) [
                  | inl x ↦ inl x
                  | inr x ↦ elim (Bool-cases (is_rewrite q.domain q.answer r)) [
                    | inl y ↦ absurd (n (q, inl refl, x, y))
                    | inr y ↦ inr y
                  ]
                ]))
                (λ (p, j, x, y). n (p, inr j, x, y)),
        )

    -- A rewrite with the right pair is not deleted.
    right_stays :
        (rows : List Rewrite) (r : Rewrite)
        → is_rewrite domain answer r ≡ true
        → IsDeleted rows r
        → ⊥
    right_stays rows r h (q, i, x, y) =
        let (d, a) = is_rewrite-eq domain answer r h in
        let (d', a') = is_rewrite-eq q.domain q.answer r y in
        let y' = is_rewrite_refl q in
        let same : is_rewrite q.domain q.answer q ≡ false =
          subst (λ z. is_rewrite z q.answer q ≡ false) (sym d ∙ d')
            (subst (λ z. is_rewrite domain z q ≡ false) (sym a ∙ a') x) in
        cc

    module _ (rows : List Rewrite) (s t : S)
        (h : reconcile_rewrites α domain answer rows s ≡ (t, some tt)) where
      abbrev wanted : Rewrite
      wanted = record { domain = domain; answer = answer }

      -- After the deletions, the wanted rewrite is there, or is added.
      reconciled :
          (u : S) × (for_each delete_stale rows s ≡ (u, some tt))
          × (((any (is_rewrite domain answer) rows ≡ true) × (rewrites t ≡ rewrites u))
              ⊎ (rewrites t ≡ rewrites u ++ (wanted ∷ [])))
      unfolding reconcile_rewrites
      reconciled =
          let (u, _, e, k) = after-inv (for_each delete_stale rows s) _ t tt h in
          (
            u,
            e,
            elim (Bool-cases (any (is_rewrite domain answer) rows)) [
              | inl x ↦ inl (x, ap (λ (x : S × Option Unit). rewrites x.0) (sym (rw x at k)))
              | inr x ↦ inr (ap (λ z. z.rewrites) (law.adds_rewrite domain answer u t (rw x at k)))
            ],
          )

      pub wanted-In : ((r : Rewrite) → In r rows → In r (rewrites s)) → In wanted (rewrites t)
      wanted-In listed =
          let (u, e, c) = reconciled in
          elim c [
            | inl (x, q) ↦
                let (r, i, y) = any-find (is_rewrite domain answer) rows x in
                let (_, kept) = delete_all rows s u e r in
                let m = kept (listed r i) (right_stays rows r y) in
                let (d, a) = is_rewrite-eq domain answer r y in
                let same : r ≡ wanted = λ i. record { domain = d i; answer = a i } in
                subst (In wanted) (sym q) (subst (λ z. In z (rewrites u)) same m)
            | inr q ↦
                subst (In wanted) (sym q)
                  (In-append_right wanted (rewrites u) (wanted ∷ []) (inl refl))
          ]

      pub origin :
          (r : Rewrite)
          → In r (rewrites t)
          → (r ≡ wanted) ⊎ (In r (rewrites s) × (IsDeleted rows r → ⊥))
      origin r m =
          let (u, e, c) = reconciled in
          let (from, _) = delete_all rows s u e r in
          elim c [
            | inl (x, q) ↦ inr (from (subst (In r) q m))
            | inr q ↦ elim (append-In r (rewrites u) (wanted ∷ []) (subst (In r) q m)) [
              | inl i ↦ inr (from i)
              | inr (inl i) ↦ inl i
              | inr (inr z) ↦ absurd z
            ]
          ]

      pub survives : (r : Rewrite) → In r (rewrites s) → (IsDeleted rows r → ⊥) → In r (rewrites t)
      survives r m n =
          let (u, e, c) = reconciled in
          let (_, kept) = delete_all rows s u e r in
          elim c [
            | inl (x, q) ↦ subst (In r) (sym q) (kept m n)
            | inr q ↦ subst (In r) (sym q) (In-append_left r (rewrites u) (wanted ∷ []) (kept m n))
          ]
