-- ===== src/Base/Sorting.antt =====
-- ORDER BY and `list.sort()`: a stable sort by a Boolean order. It rearranges, and the values that
-- it puts first are least.
use mathlib.Core.Path.{◌≡◌, subst}
use mathlib.Core.Logic.{inl, inr}
use mathlib.Core.Bool.{Bool, true, false}
use mathlib.Core.Option.{Option, none, some}
use native.Mathlib.Omega.{arith}
use mathlib.Core.List.{List, [], ◌∷◌}
use opti_gate.Base.Equality.{if◌then◌else◌, Bool-cases}
use opti_gate.Base.Lists.{In, All, all-in, filter, filter-In, In-filter}

module _ {ℓ} {A : Type ℓ} (before : A → A → Bool) where
  unfoldable pub insert : A → List A → List A
  insert x [] = x ∷ []
  insert x (y ∷ ys) = if before x y then x ∷ y ∷ ys else y ∷ insert x ys

  unfoldable pub sort_by : List A → List A
  unfolding insert
  sort_by [] = []
  sort_by (x ∷ xs) = insert x (sort_by xs)

  -- Each value stands before every later one.
  abbrev pub IsSorted : List A → Type 0
  IsSorted [] = Unit
  IsSorted (x ∷ xs) = All (λ y. before x y ≡ true) xs × IsSorted xs

module _ {A : Type 0} (before : A → A → Bool) where
  In-insert : (a x : A) (xs : List A) → In a (x ∷ xs) → In a (insert before x xs)
  unfolding insert
  In-insert a x [] m = m
  In-insert a x (y ∷ ys) m = elim (Bool-cases (before x y)) [
    | inl k ↦ rw k m
    | inr k ↦ rw k (elim m [
      | inl e ↦ inr (In-insert a x ys (inl e))
      | inr r ↦ elim r [ inl e ↦ inl e | inr l ↦ inr (In-insert a x ys (inr l)) ]
    ])
  ]

  insert-In : (a x : A) (xs : List A) → In a (insert before x xs) → In a (x ∷ xs)
  unfolding insert
  insert-In a x [] m = m
  insert-In a x (y ∷ ys) m = elim (Bool-cases (before x y)) [
    | inl k ↦ rw k at m
    | inr k ↦ elim (rw k at m) [
      | inl e ↦ inr (inl e)
      | inr r ↦ elim (insert-In a x ys r) [ inl e ↦ inl e | inr l ↦ inr (inr l) ]
    ]
  ]

  pub In-sort_by : (a : A) (xs : List A) → In a xs → In a (sort_by before xs)
  unfolding sort_by
  In-sort_by a [] m = m
  In-sort_by a (x ∷ xs) (inl e) = In-insert a x _ (inl e)
  In-sort_by a (x ∷ xs) (inr r) = In-insert a x _ (inr (In-sort_by a xs r))

  pub sort_by-In : (a : A) (xs : List A) → In a (sort_by before xs) → In a xs
  unfolding sort_by
  sort_by-In a [] m = m
  sort_by-In a (x ∷ xs) m = elim (insert-In a x (sort_by before xs) m) [
    | inl e ↦ inl e
    | inr r ↦ inr (sort_by-In a xs r)
  ]

-- The order is total and transitive, as Python's and SQLite's are.
pub record IsOrder {ℓ} {A : Type ℓ} (before : A → A → Bool) : Type ℓ where
  pub total : (a b : A) → before a b ≡ false → before b a ≡ true
  pub trans : (a b c : A) → before a b ≡ true → before b c ≡ true → before a c ≡ true

module _ {A : Type 0} (before : A → A → Bool) (o : IsOrder before) where
  All-insert : (P : A → Type 0) (x : A) (xs : List A) → P x → All P xs → All P (insert before x xs)
  unfolding insert
  All-insert P x [] h hs = (h, hs)
  All-insert P x (y ∷ ys) h hs = elim (Bool-cases (before x y)) [
    | inl k ↦ rw k (h, hs)
    | inr k ↦ rw k (hs.0, All-insert P x ys h hs.1)
  ]

  All-before :
      (x y : A) (ys : List A)
      → before x y ≡ true
      → All (λ z. before y z ≡ true) ys
      → All (λ z. before x z ≡ true) ys
  All-before x y [] h hs = hs
  All-before x y (z ∷ zs) h hs = (o.trans x y z h hs.0, All-before x y zs h hs.1)

  insert-IsSorted :
      (x : A) (xs : List A) → IsSorted before xs → IsSorted before (insert before x xs)
  unfolding insert
  insert-IsSorted x [] s = (tt, tt)
  insert-IsSorted x (y ∷ ys) s = elim (Bool-cases (before x y)) [
    | inl k ↦ rw k ((k, All-before x y ys k s.0), s)
    | inr k ↦
        rw k
          (All-insert (λ z. before y z ≡ true) x ys (o.total x y k) s.0, insert-IsSorted x ys s.1)
  ]

  pub sort_by-IsSorted : (xs : List A) → IsSorted before (sort_by before xs)
  unfolding sort_by
  sort_by-IsSorted [] = tt
  sort_by-IsSorted (x ∷ xs) = insert-IsSorted x (sort_by before xs) (sort_by-IsSorted xs)

-- SELECT … WHERE p ORDER BY before LIMIT 1.
module _ {A : Type 0} where
  abbrev pub head? : List A → Option A
  head? [] = none
  head? (x ∷ xs) = some x

  unfoldable pub first_where : (before : A → A → Bool) (p : A → Bool) → List A → Option A
  unfolding filter sort_by
  first_where before p xs = head? (sort_by before (filter p xs))

module _ {A : Type 0} (before : A → A → Bool) (o : IsOrder before) where
  before_refl : (a : A) → before a a ≡ true
  before_refl a = elim (Bool-cases (before a a)) [ inl e ↦ e | inr e ↦ o.total a a e ]

  head_least :
      (a b : A) (xs : List A) → IsSorted before xs → head? xs ≡ some a → In b xs → before a b ≡ true
  head_least a b [] s h m = elim m [ ]
  head_least a b (x ∷ xs) s h (inl e) = let q : x ≡ a = ground arith in rw (e, q) (before_refl a)
  head_least a b (x ∷ xs) s h (inr r) =
      let q : x ≡ a = ground arith in
      all-in (λ y. before a y ≡ true) b xs (subst (λ z. All (λ y. before z y ≡ true) xs) q s.0) r

  head-In : (a : A) (xs : List A) → head? xs ≡ some a → In a xs
  head-In a [] h = cc
  head-In a (x ∷ xs) h = inl (ground arith)

  module _ (p : A → Bool) where
    -- The row that the query returns is in the table, satisfies its condition, and comes before
    -- every other row that does.
    pub first_where-some :
        (a : A) (xs : List A)
        → first_where before p xs ≡ some a
        → In a xs × (p a ≡ true) × ((b : A) → In b xs → p b ≡ true → before a b ≡ true)
    unfolding first_where
    first_where-some a xs h =
        let m = filter-In p a xs (sort_by-In before a (filter p xs) (head-In a _ h)) in
        (
          m.0,
          m.1,
          λ b i pb.
              head_least a b _ (sort_by-IsSorted before o (filter p xs)) h
                (In-sort_by before b (filter p xs) (In-filter p b xs i pb)),
        )

    head?-none : (a : A) (xs : List A) → head? xs ≡ none → In a xs → ⊥
    head?-none a [] h m = m
    head?-none a (x ∷ xs) h m = ground arith

    -- Where it returns nothing, no row satisfies the condition.
    pub first_where-none :
        (b : A) (xs : List A) → first_where before p xs ≡ none → In b xs → p b ≡ false
    unfolding first_where
    first_where-none b xs h i = elim (Bool-cases (p b)) [
      | inl e ↦ absurd (head?-none b _ h (In-sort_by before b (filter p xs) (In-filter p b xs i e)))
      | inr e ↦ e
    ]
