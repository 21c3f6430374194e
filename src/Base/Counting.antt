-- ===== src/Base/Counting.antt =====
-- A list without repetition is no longer than one that holds all of it.
use Prim.Native.Nat.{suc, ◌≤◌}
use mathlib.Core.Path.{◌≡◌, refl, ap, sym, ◌∙◌, subst}
use mathlib.Core.Logic.{inl, inr}
use mathlib.Core.Bool.{Bool, true, not, ◌&&◌}
use mathlib.Core.List.{List, [], ◌∷◌, map}
use native.Mathlib.Omega.{arith}
use opti_gate.Base.Equality.{Comparable}
use opti_gate.Base.Lists.{length, In, NoDup, contains, In-contains, In-map}

module _ {A : Type 0} where
  -- The list without the first occurrence of a value.
  without :
      (x : A) (ys : List A)
      → In x ys
      → (zs : List A) × (length ys ≡ suc (length zs)) × ((y : A) → In y ys → (y ≡ x → ⊥) → In y zs)
  without x [] m = absurd m
  without x (y ∷ ys) (inl e) =
      (ys, refl, λ z m n. elim m [ inl q ↦ absurd (n (q ∙ sym e)) | inr i ↦ i ])
  without x (y ∷ ys) (inr m) =
      let (zs, e, f) = without x ys m in
      (y ∷ zs, ap suc e, λ z i n. elim i [ inl q ↦ inl q | inr j ↦ inr (f z j n) ])

  pub NoDup-length :
      (xs ys : List A) → NoDup xs → ((x : A) → In x xs → In x ys) → length xs ≤ length ys
  NoDup-length [] ys n h = omega arith
  NoDup-length (x ∷ xs) ys n h =
      let (zs, e, f) = without x ys (h x (inl refl)) in
      let ih =
        NoDup-length xs zs n.1 (λ y m. f y (h y (inr m)) (λ q. n.0 (subst (λ z. In z xs) q m))) in
      omega arith

pub NoDup-map : {A B : Type 0} (f : A → B) (xs : List A) → NoDup (map f xs) → NoDup xs
NoDup-map f [] n = tt
NoDup-map f (x ∷ xs) n = (λ m. n.0 (In-map f x xs m), NoDup-map f xs n.1)

pub length-map : {A B : Type 0} (f : A → B) (xs : List A) → length (map f xs) ≡ length xs
length-map f [] = refl
length-map f (x ∷ xs) = ap suc (length-map f xs)

-- The test that no value is listed twice.
unfoldable pub all_distinct {ℓ} : {A : Type ℓ} ⦃e : Comparable A⦄ → List A → Bool
unfolding contains
all_distinct [] = true
all_distinct (x ∷ xs) = not (contains xs x) && all_distinct xs

pub all_distinct-NoDup :
    {A : Type 0} ⦃e : Comparable A⦄ (xs : List A) → all_distinct xs ≡ true → NoDup xs
unfolding all_distinct
all_distinct-NoDup [] h = tt
all_distinct-NoDup (x ∷ xs) h =
    (λ m. let k = In-contains x xs m in absurd (ground arith), all_distinct-NoDup xs (ground arith))
