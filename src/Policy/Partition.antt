-- ===== src/Policy/Partition.antt =====
-- What the five address sets hold: each address of an active binding stands in the set of its
-- row's class, and in no other unless another active binding has the address.
use opti_gate.Base.{ℕ, String, some, Bool, true, false, if◌then◌else◌, ◌==◌}
use opti_gate.Base.{List, [], ◌∷◌, ◌++◌, sort_by, str_leb, In, ◌≡◌, refl, sym}
use opti_gate.Base.{◌↔◌, ◌⊎◌, inl, inr, arith, append-In, In-append_left, In-append_right}
use opti_gate.Base.{In-sort_by, sort_by-In, >>=-eq-some, some_inj, ◌∙◌, ap, subst}
use opti_gate.Tables.{Database, PolicyRow}
use opti_gate.Platform.{Platform}
use opti_gate.Policy.Class.{PolicyClass, authenticated, preauth, bypass, quarantine, class_eq}
use opti_gate.Policy.Sets.{PolicySets, policy_rows, empty_sets, append_to_class, append_to_bump}
use opti_gate.Policy.Sets.{sort_sets, overlaid_class, is_bumped, fill, compute_desired_policy}

-- The keys of the dictionary.
pub data SetName : Type 0 where
  of_class : PolicyClass → SetName
  bump : SetName

abbrev pub members : SetName → PolicySets → List String
members (of_class PolicyClass.authenticated) p = p.authenticated
members (of_class PolicyClass.preauth) p = p.unauthenticated
members (of_class PolicyClass.bypass) p = p.bypass
members (of_class PolicyClass.quarantine) p = p.quarantine
members bump p = p.bump

-- A row with this class after the overlay is added to the set.
abbrev pub is_added : SetName → PolicyRow → PolicyClass → Bool
is_added (of_class c) row policy_class = policy_class == c
is_added bump row policy_class = is_bumped row policy_class

-- One turn of the loop, by the class of its row.
abbrev pub turn : PolicyRow → PolicyClass → PolicySets → PolicySets
turn row c p =
    append_to_bump (is_bumped row c) row.ipv4_address (append_to_class c row.ipv4_address p)

members-turn :
    (row : PolicyRow) (c : PolicyClass) (p : PolicySets) (name : SetName)
    → members name (turn row c p)
      ≡ (if is_added name row c then members name p ++ (row.ipv4_address ∷ []) else members name p)
unfolding append_to_class append_to_bump
members-turn row c p name = ground arith

In-if_snoc :
    (b : Bool) (ip x : String) (xs : List String)
    → In ip (if b then xs ++ (x ∷ []) else xs)
    → In ip xs ⊎ ((b ≡ true) × (x ≡ ip))
In-if_snoc false ip x xs m = inl m
In-if_snoc true ip x xs m = elim (append-In ip xs (x ∷ []) m) [
  | inl l ↦ inl l
  | inr r ↦ elim r [ inl e ↦ inr (refl, sym e) | inr n ↦ absurd n ]
]

if_snoc-In_old :
    (b : Bool) (ip x : String) (xs : List String)
    → In ip xs
    → In ip (if b then xs ++ (x ∷ []) else xs)
if_snoc-In_old false ip x xs m = m
if_snoc-In_old true ip x xs m = In-append_left ip xs (x ∷ []) m

if_snoc-In_new :
    (b : Bool) (x : String) (xs : List String) → b ≡ true → In x (if b then xs ++ (x ∷ []) else xs)
if_snoc-In_new b x xs e = rw e (In-append_right x xs (x ∷ []) (inl refl))

pub members-sort_sets :
    (name : SetName) (p : PolicySets)
    → members name (sort_sets p) ≡ sort_by str_leb (members name p)
members-sort_sets (of_class authenticated) p = refl
members-sort_sets (of_class preauth) p = refl
members-sort_sets (of_class bypass) p = refl
members-sort_sets (of_class quarantine) p = refl
members-sort_sets bump p = refl

members-empty : (name : SetName) (ip : String) → In ip (members name empty_sets) → ⊥
members-empty (of_class authenticated) ip m = m
members-empty (of_class preauth) ip m = m
members-empty (of_class bypass) ip m = m
members-empty (of_class quarantine) ip m = m
members-empty bump ip m = m

module _ (π : Platform) (db : Database) (now : ℕ) where
  -- One of the rows has the address, and its class adds it to the set.
  abbrev pub HasRow : SetName → String → List PolicyRow → Type 0
  HasRow name ip rows =
      (row : PolicyRow) × (c : PolicyClass) × In row rows
      × (overlaid_class π db now row ≡ some c)
      × (is_added name row c ≡ true)
      × (row.ipv4_address ≡ ip)

  HasRow-cons :
      (name : SetName) (ip : String) (row : PolicyRow) (rows : List PolicyRow)
      → HasRow name ip rows
      → HasRow name ip (row ∷ rows)
  HasRow-cons name ip row rows (r, c, i, o, a, e) = (r, c, inr i, o, a, e)

  In-fill :
      (rows : List PolicyRow) (p q : PolicySets) (name : SetName) (ip : String)
      → fill π db now rows p ≡ some q
      → In ip (members name q)
      → In ip (members name p) ⊎ HasRow name ip rows
  unfolding fill
  In-fill [] p q name ip h m = inl (subst (λ z. In ip (members name z)) (sym (some_inj h)) m)
  In-fill (row ∷ rows) p q name ip h m =
      let (c, o, k) = >>=-eq-some (overlaid_class π db now row) _ h in
      elim (In-fill rows (turn row c p) q name ip k m) [
        | inl l ↦
            elim (In-if_snoc (is_added name row c) ip row.ipv4_address (members name p)
              (rw members-turn at l)) [
                | inl old ↦ inl old
                | inr new ↦ inr (row, c, inl refl, o, new.0, new.1)
              ]
        | inr r ↦ inr (HasRow-cons name ip row rows r)
      ]

  fill-In_old :
      (rows : List PolicyRow) (p q : PolicySets) (name : SetName) (ip : String)
      → fill π db now rows p ≡ some q
      → In ip (members name p)
      → In ip (members name q)
  unfolding fill
  fill-In_old [] p q name ip h m = subst (λ z. In ip (members name z)) (some_inj h) m
  fill-In_old (row ∷ rows) p q name ip h m =
      let (c, o, k) = >>=-eq-some (overlaid_class π db now row) _ h in
      fill-In_old rows (turn row c p) q name ip k (
        rw members-turn
          (if_snoc-In_old (is_added name row c) ip row.ipv4_address (members name p) m))

  fill-In_head :
      (row : PolicyRow) (rows : List PolicyRow) (p q : PolicySets) (name : SetName)
      (c : PolicyClass)
      → fill π db now (row ∷ rows) p ≡ some q
      → overlaid_class π db now row ≡ some c
      → is_added name row c ≡ true
      → In row.ipv4_address (members name q)
  unfolding fill
  fill-In_head row rows p q name c h o a =
      let (c', o', k) = >>=-eq-some (overlaid_class π db now row) _ h in
      let same : c ≡ c' = some_inj (sym o ∙ o') in
      let a' : is_added name row c' ≡ true = subst (λ z. is_added name row z ≡ true) same a in
      fill-In_old rows (turn row c' p) q name row.ipv4_address k (
        rw members-turn
          (if_snoc-In_new (is_added name row c') row.ipv4_address (members name p) a'))

  fill-In_new :
      (rows : List PolicyRow) (p q : PolicySets) (name : SetName) (ip : String)
      → fill π db now rows p ≡ some q
      → HasRow name ip rows
      → In ip (members name q)
  unfolding fill
  fill-In_new [] p q name ip h (r, c, i, o, a, e) = absurd i
  fill-In_new (row ∷ rows) p q name ip h (r, c, inl i, o, a, e) =
      subst (λ z. In z (members name q)) (ap (λ (z : PolicyRow). z.ipv4_address) (sym i) ∙ e)
        (fill-In_head row rows p q name c h (subst (λ z. overlaid_class π db now z ≡ some c) i o)
          (subst (λ z. is_added name z c ≡ true) i a))
  fill-In_new (row ∷ rows) p q name ip h (r, c, inr i, o, a, e) =
      let (c', o', k) = >>=-eq-some (overlaid_class π db now row) _ h in
      fill-In_new rows (turn row c' p) q name ip k (r, c, i, o, a, e)

  -- What is computed is the loop's result, sorted.
  computed :
      {p : PolicySets}
      → compute_desired_policy π db now ≡ some p
      → (q : PolicySets) × (fill π db now (policy_rows db) empty_sets ≡ some q) × (sort_sets q ≡ p)
  unfolding compute_desired_policy
  computed h = let (q, f, e) = >>=-eq-some _ _ h in (q, f, some_inj e)

  -- An address stands in a set of the computed policy exactly when some row of an active binding
  -- has that address and, after the lockout overlay, the set's class; for the bump set the row is
  -- authenticated after the overlay and may be bumped.
  pub compute_desired_policy-HasRow :
      (p : PolicySets)
      → compute_desired_policy π db now ≡ some p
      → (name : SetName) (ip : String) → In ip (members name p) ↔ HasRow name ip (policy_rows db)
  compute_desired_policy-HasRow p h name ip =
      let (q, f, e) = computed h in
      (
        λ m.
            let m' = subst (λ z. In ip (members name z)) (sym e) m in
            let m'' = sort_by-In str_leb ip (members name q) (rw members-sort_sets at m') in
            elim (In-fill (policy_rows db) empty_sets q name ip f m'') [
              | inl n ↦ absurd (members-empty name ip n)
              | inr r ↦ r
            ],
        λ r.
            let m = fill-In_new (policy_rows db) empty_sets q name ip f r in
            subst (λ z. In ip (members name z)) e
              (rw members-sort_sets (In-sort_by str_leb ip (members name q) m)),
      )
