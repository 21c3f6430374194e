-- ===== src/Base/Lists.antt =====
-- Comprehensions, `in`, and the shapes of query that the program's SQL has.
use Prim.Native.Nat.{ℕ, suc}
use mathlib.Core.Path.{◌≡◌, refl, sym, ap, subst}
use mathlib.Core.Logic.{◌⊎◌, ◌↔◌, inl, inr}
use mathlib.Core.Bool.{Bool, true, false, ◌&&◌, ◌||◌}
use mathlib.Core.Option.{Option, none, some}
use mathlib.Core.List.{List, [], ◌∷◌, ◌++◌, map}
use native.Mathlib.Omega.{arith}
use opti_gate.Base.Equality.{Comparable, ◌==◌, if◌then◌else◌, Bool-cases, eq_of_beq, beq_refl}
use opti_gate.Base.Options.{is_some}

module _ {ℓ} {A : Type ℓ} where
  abbrev pub length : List A → ℕ
  length [] = 0
  length (x ∷ xs) = suc (length xs)

  -- The rows that a WHERE clause keeps, in the order of the table.
  unfoldable pub filter : (A → Bool) → List A → List A
  filter p [] = []
  filter p (x ∷ xs) = if p x then x ∷ filter p xs else filter p xs

  -- `fetchone()`: the first row that a WHERE clause keeps.
  unfoldable pub find? : (A → Bool) → List A → Option A
  find? p [] = none
  find? p (x ∷ xs) = if p x then some x else find? p xs

  unfoldable pub any : (A → Bool) → List A → Bool
  any p [] = false
  any p (x ∷ xs) = p x || any p xs

  -- UPDATE … WHERE: the rows that the test picks are rewritten.
  unfoldable pub update_where : (A → Bool) → (A → A) → List A → List A
  update_where p f [] = []
  update_where p f (x ∷ xs) = (if p x then f x else x) ∷ update_where p f xs

-- `a` is listed.
abbrev pub In : {A : Type 0} → A → List A → Type 0
In a [] = ⊥
In a (x ∷ xs) = (a ≡ x) ⊎ In a xs

-- Every listed value has the property.
abbrev pub All {ℓ} : {A : Type ℓ} → (A → Type 0) → List A → Type 0
All P [] = Unit
All P (x ∷ xs) = P x × All P xs

-- Python's `a in xs`.
unfoldable pub contains {ℓ} : {A : Type ℓ} ⦃e : Comparable A⦄ → List A → A → Bool
contains [] a = false
contains (x ∷ xs) a = a == x || contains xs a

module _ {A : Type 0} (p : A → Bool) where
  pub In-filter : (a : A) (xs : List A) → In a xs → p a ≡ true → In a (filter p xs)
  unfolding filter
  In-filter a [] m h = elim m [ ]
  In-filter a (x ∷ xs) (inl e) h = rw (← e, h) (inl refl)
  In-filter a (x ∷ xs) (inr r) h = elim (Bool-cases (p x)) [
    | inl k ↦ rw k (inr (In-filter a xs r h))
    | inr k ↦ rw k (In-filter a xs r h)
  ]

  filter-In_head :
      (a x : A) (xs : List A)
      → p x ≡ true
      → (In a (filter p xs) → In a xs × (p a ≡ true))
      → In a (x ∷ filter p xs)
      → In a (x ∷ xs) × (p a ≡ true)
  filter-In_head a x xs k ih (inl e) = (inl e, rw e k)
  filter-In_head a x xs k ih (inr r) = (inr (ih r).0, (ih r).1)

  -- What a query returns is in the table and satisfies its condition.
  pub filter-In : (a : A) (xs : List A) → In a (filter p xs) → In a xs × (p a ≡ true)
  unfolding filter
  filter-In a [] h = elim h [ ]
  filter-In a (x ∷ xs) h = elim (Bool-cases (p x)) [
    | inl k ↦ filter-In_head a x xs k (filter-In a xs) (rw k at h)
    | inr k ↦ let r = filter-In a xs (rw k at h) in (inr r.0, r.1)
  ]

  pub find?-In : (a : A) (xs : List A) → find? p xs ≡ some a → In a xs × (p a ≡ true)
  unfolding find?
  find?-In a [] h = elim (Bool-cases false) [ inl e ↦ cc | inr e ↦ cc ]
  find?-In a (x ∷ xs) h = elim (Bool-cases (p x)) [
    | inl k ↦ let e : a ≡ x = ground arith in (inl e, rw e k)
    | inr k ↦ let r = find?-In a xs (rw k at h) in (inr r.0, r.1)
  ]

  pub any-eq-is_some-find? : (xs : List A) → any p xs ≡ is_some (find? p xs)
  unfolding any find?
  any-eq-is_some-find? [] = refl
  any-eq-is_some-find? (x ∷ xs) = ground (arith, any-eq-is_some-find? xs)

  pub any-In : (a : A) (xs : List A) → In a xs → p a ≡ true → any p xs ≡ true
  unfolding any
  any-In a [] m h = elim m [ ]
  any-In a (x ∷ xs) (inl e) h = rw (← e, h)
  any-In a (x ∷ xs) (inr r) h = ground (arith, any-In a xs r h)

  pub any-find : (xs : List A) → any p xs ≡ true → (a : A) × In a xs × (p a ≡ true)
  unfolding any
  any-find [] h = cc
  any-find (x ∷ xs) h = elim (Bool-cases (p x)) [
    | inl k ↦ (x, inl refl, k)
    | inr k ↦ let r = any-find xs (ground arith) in (r.0, inr r.1, r.2)
  ]

  pub filter-append : (xs ys : List A) → filter p (xs ++ ys) ≡ filter p xs ++ filter p ys
  unfolding filter
  filter-append [] ys = refl
  filter-append (x ∷ xs) ys = ground (arith, filter-append xs ys)

module _ {A : Type 0} where
  pub In-append_left : (a : A) (xs ys : List A) → In a xs → In a (xs ++ ys)
  In-append_left a [] ys m = elim m [ ]
  In-append_left a (x ∷ xs) ys (inl e) = inl e
  In-append_left a (x ∷ xs) ys (inr r) = inr (In-append_left a xs ys r)

  pub In-append_right : (a : A) (xs ys : List A) → In a ys → In a (xs ++ ys)
  In-append_right a [] ys m = m
  In-append_right a (x ∷ xs) ys m = inr (In-append_right a xs ys m)

  pub append-In : (a : A) (xs ys : List A) → In a (xs ++ ys) → In a xs ⊎ In a ys
  append-In a [] ys m = inr m
  append-In a (x ∷ xs) ys (inl e) = inl (inl e)
  append-In a (x ∷ xs) ys (inr r) = elim (append-In a xs ys r) [
    | inl l ↦ inl (inr l)
    | inr l ↦ inr l
  ]

  pub all-in : (P : A → Type 0) (a : A) (xs : List A) → All P xs → In a xs → P a
  all-in P a [] h m = elim m [ ]
  all-in P a (x ∷ xs) h (inl e) = subst P (sym e) h.0
  all-in P a (x ∷ xs) h (inr r) = all-in P a xs h.1 r

module _ {A B : Type 0} where
  pub In-map : (f : A → B) (a : A) (xs : List A) → In a xs → In (f a) (map f xs)
  In-map f a [] m = elim m [ ]
  In-map f a (x ∷ xs) (inl e) = inl (ap f e)
  In-map f a (x ∷ xs) (inr r) = inr (In-map f a xs r)

  pub map-In : (f : A → B) (b : B) (xs : List A) → In b (map f xs) → (a : A) × In a xs × (b ≡ f a)
  map-In f b [] m = elim m [ ]
  map-In f b (x ∷ xs) (inl e) = (x, inl refl, e)
  map-In f b (x ∷ xs) (inr r) = let q = map-In f b xs r in (q.0, inr q.1, q.2)

-- `all(p(x) for x in xs)`
unfoldable pub every {ℓ} : {A : Type ℓ} → (A → Bool) → List A → Bool
every p [] = true
every p (x ∷ xs) = p x && every p xs

-- No value is listed twice.
abbrev pub NoDup : {A : Type 0} → List A → Type 0
NoDup [] = Unit
NoDup (x ∷ xs) = (In x xs → ⊥) × NoDup xs

module _ {A : Type 0} (p : A → Bool) where
  pub every-In : (a : A) (xs : List A) → every p xs ≡ true → In a xs → p a ≡ true
  unfolding every
  every-In a [] h m = absurd m
  every-In a (x ∷ xs) h (inl e) = rw e (ground arith)
  every-In a (x ∷ xs) h (inr r) = every-In a xs (ground arith) r

  pub In-every : (xs : List A) → ((a : A) → In a xs → p a ≡ true) → every p xs ≡ true
  unfolding every
  In-every [] h = refl
  In-every (x ∷ xs) h = rw (h x (inl refl)) (In-every xs (λ a m. h a (inr m)))

module _ {A : Type 0} ⦃e : Comparable A⦄ where
  pub contains-In : (a : A) (xs : List A) → contains xs a ≡ true → In a xs
  unfolding contains
  contains-In a [] h = cc
  contains-In a (x ∷ xs) h = elim (Bool-cases (a == x)) [
    | inl k ↦ inl (eq_of_beq a x k)
    | inr k ↦ inr (contains-In a xs (rw k at h))
  ]

  pub In-contains : (a : A) (xs : List A) → In a xs → contains xs a ≡ true
  unfolding contains
  In-contains a [] m = absurd m
  In-contains a (x ∷ xs) (inl q) = rw (← q, beq_refl a)
  In-contains a (x ∷ xs) (inr r) = ground (arith, In-contains a xs r)

module _ {A : Type 0} (p : A → Bool) (f : A → A) where
  -- A row after an UPDATE is the rewriting of one that was picked, or one that was not.
  pub update_where-In :
      (b : A) (xs : List A)
      → In b (update_where p f xs)
      → (a : A) × In a xs × (((p a ≡ true) × (b ≡ f a)) ⊎ ((p a ≡ false) × (b ≡ a)))
  unfolding update_where
  update_where-In b [] m = absurd m
  update_where-In b (x ∷ xs) (inl e) = elim (Bool-cases (p x)) [
    | inl k ↦ (x, inl refl, inl (k, (rw k at e)))
    | inr k ↦ (x, inl refl, inr (k, (rw k at e)))
  ]
  update_where-In b (x ∷ xs) (inr r) = let (a, i, d) = update_where-In b xs r in (a, inr i, d)

  pub In-update_where_kept :
      (a : A) (xs : List A) → In a xs → p a ≡ false → In a (update_where p f xs)
  unfolding update_where
  In-update_where_kept a [] m h = absurd m
  In-update_where_kept a (x ∷ xs) (inl e) h = inl (let k : p x ≡ false = rw (← e, h) refl in rw k e)
  In-update_where_kept a (x ∷ xs) (inr r) h = inr (In-update_where_kept a xs r h)

  pub In-update_where_picked :
      (a : A) (xs : List A) → In a xs → p a ≡ true → In (f a) (update_where p f xs)
  unfolding update_where
  In-update_where_picked a [] m h = absurd m
  In-update_where_picked a (x ∷ xs) (inl e) h =
      inl (let k : p x ≡ true = rw (← e, h) refl in rw k (ap f e))
  In-update_where_picked a (x ∷ xs) (inr r) h = inr (In-update_where_picked a xs r h)

  -- An UPDATE that keeps a test's value on every row keeps whether any row passes.
  pub any-update_where :
      (q : A → Bool)
      → ((a : A) → q (f a) ≡ q a)
      → (xs : List A) → any q (update_where p f xs) ≡ any q xs
  unfolding update_where any
  any-update_where q h [] = refl
  any-update_where q h (x ∷ xs) = elim (Bool-cases (p x)) [
    | inl k ↦ rw (k, h x, any-update_where q h xs) refl
    | inr k ↦ rw (k, any-update_where q h xs) refl
  ]

-- `==` of two lists.
abbrev pub list_beq {ℓ} : {A : Type ℓ} ⦃e : Comparable A⦄ → List A → List A → Bool
list_beq [] [] = true
list_beq [] (y ∷ ys) = false
list_beq (x ∷ xs) [] = false
list_beq (x ∷ xs) (y ∷ ys) = x == y && list_beq xs ys

module _ {ℓ} {A : Type ℓ} ⦃e : Comparable A⦄ where
  list_beq-eq : (xs ys : List A) → list_beq xs ys ≡ true → xs ≡ ys
  list_beq-eq [] [] h = refl
  list_beq-eq [] (y ∷ ys) h = cc
  list_beq-eq (x ∷ xs) [] h = cc
  list_beq-eq (x ∷ xs) (y ∷ ys) h =
      let q : x ≡ y = eq_of_beq x y (ground arith) in
      let r = list_beq-eq xs ys (ground arith) in λ i. q i ∷ r i

  list_beq_refl : (xs : List A) → list_beq xs xs ≡ true
  list_beq_refl [] = refl
  list_beq_refl (x ∷ xs) = rw (beq_refl x) (list_beq_refl xs)

  pub list_beq_iff : (xs ys : List A) → (list_beq xs ys ≡ true) ↔ (xs ≡ ys)
  list_beq_iff xs ys =
      (list_beq-eq xs ys, λ q. subst (λ z. list_beq xs z ≡ true) q (list_beq_refl xs))

instance abbrev pub list_eq {ℓ} : {A : Type ℓ} ⦃e : Comparable A⦄ → Comparable (List A)
list_eq = record { same = list_beq; same_iff = list_beq_iff }
