-- ===== src/Base/Separators.antt =====
-- Texts joined by a separator that does not stand in them are split into the same texts.
use Prim.Native.Nat.{ℕ}
use Prim.Native.Char.{Char, code}
use Prim.Native.String.{String}
use mathlib.Core.Path.{◌≡◌, refl, ap, ◌∙◌}
use mathlib.Core.Bool.{false, ◌||◌}
use mathlib.Core.List.{List, [], ◌∷◌}
use mathlib.Core.Option.{some}
use mathlib.Core.Path.{subst}
use mathlib.Core.Logic.{inl, inr}
use native.Mathlib.Omega.{arith}
use opti_gate.Base.Options.{some_inj}
use opti_gate.Base.Equality.{◌==◌, nat_eq, Bool-cases, Option-cases}
use opti_gate.Base.Lists.{All}
use opti_gate.Base.Text.{◌<>◌, cut, partition, split_on, join, has_char, push_head}

-- `sep` does not stand in the text.
abbrev pub IsFree : ℕ → String → Type 0
IsFree sep s = has_char sep s ≡ false

abbrev pub AreFree : ℕ → List String → Type 0
AreFree sep = All (IsFree sep)

module _ (sep : Char) where
  cut_head : (b : String) → cut (code sep) (String.◌∷◌ sep b) ≡ some ("", b)
  unfolding cut
  cut_head b = ground arith

  partition_head : (b : String) → partition (code sep) (String.◌∷◌ sep b) ≡ ("", b)
  unfolding partition
  partition_head b = ground arith

  pub cut-append :
      (a b : String) → IsFree (code sep) a → cut (code sep) (a <> String.◌∷◌ sep b) ≡ some (a, b)
  unfolding cut has_char
  cut-append String.[] b h = cut_head b
  cut-append (String.◌∷◌ c a) b h = ground (arith, cut-append a b)

  pub partition-append :
      (a b : String) → IsFree (code sep) a → partition (code sep) (a <> String.◌∷◌ sep b) ≡ (a, b)
  unfolding partition has_char
  partition-append String.[] b h = partition_head b
  partition-append (String.◌∷◌ c a) b h = ground (arith, partition-append a b)

module _ (sep : ℕ) where
  push_head-AreFree :
      (c : Char)
      → (code c == sep) ≡ false
      → (xs : List String) → AreFree sep xs
      → AreFree sep (push_head c xs)
  unfolding push_head has_char
  push_head-AreFree c e [] h = (rw e refl, tt)
  push_head-AreFree c e (x ∷ xs) h = (rw e h.0, h.1)

  pub partition-IsFree : (a : String) → IsFree sep a → partition sep a ≡ (a, "")
  unfolding partition has_char
  partition-IsFree String.[] h = refl
  partition-IsFree (String.◌∷◌ c a) h = ground (arith, partition-IsFree a)

  pub cut-eq-some : (s a b : String) → cut sep s ≡ some (a, b) → IsFree sep a
  unfolding cut has_char
  cut-eq-some String.[] a b h = cc
  cut-eq-some (String.◌∷◌ c s) a b h = elim (Bool-cases (code c == sep)) [
    | inl e ↦
        let q : String.[] ≡ a = ap (λ (z : String × String). z.0) (some_inj (rw e at h)) in
        subst (IsFree sep) q refl
    | inr e ↦ elim (Option-cases (cut sep s)) [
      | inl n ↦ ground arith
      | inr ((x, y), k) ↦
          let q : String.◌∷◌ c x ≡ a =
            ap (λ (z : String × String). z.0) (some_inj (rw (e, k) at h)) in
          subst (IsFree sep) q (rw (e) (cut-eq-some s x y k))
    ]
  ]

  -- What `split` gives is free of the separator, and is never empty.
  pub split_on-AreFree : (s : String) → AreFree sep (split_on sep s)
  unfolding split_on has_char
  split_on-AreFree String.[] = (refl, tt)
  split_on-AreFree (String.◌∷◌ c s) = elim (Bool-cases (code c == sep)) [
    | inl e ↦ rw e (refl, split_on-AreFree s)
    | inr e ↦ rw e (push_head-AreFree c e (split_on sep s) (split_on-AreFree s))
  ]

-- A piece ends where the text does, or at the first separator.
module _ (sep : ℕ) where
  split_on-IsFree : (a : String) → IsFree sep a → split_on sep a ≡ a ∷ []
  unfolding split_on has_char push_head
  split_on-IsFree String.[] h = refl
  split_on-IsFree (String.◌∷◌ c a) h = ground (arith, split_on-IsFree a)

module _ (sep : Char) where
  split_head : (b : String) → split_on (code sep) (String.◌∷◌ sep b) ≡ "" ∷ split_on (code sep) b
  unfolding split_on
  split_head b = ground arith

  split_on-append :
      (a b : String)
      → IsFree (code sep) a
      → split_on (code sep) (a <> String.◌∷◌ sep b) ≡ a ∷ split_on (code sep) b
  unfolding split_on has_char push_head
  split_on-append String.[] b h = split_head b
  split_on-append (String.◌∷◌ c a) b h = ground (arith, split_on-append a b)

  -- Joining and splitting again gives the pieces back, where none holds the separator.
  pub split_on-join :
      (x : String) (xs : List String)
      → AreFree (code sep) (x ∷ xs)
      → split_on (code sep) (join (String.◌∷◌ sep "") (x ∷ xs)) ≡ x ∷ xs
  unfolding join
  split_on-join x [] h = split_on-IsFree (code sep) x h.0
  split_on-join x (y ∷ ys) h =
      split_on-append x (join (String.◌∷◌ sep "") (y ∷ ys)) h.0
      ∙ ap (◌∷◌ x) (split_on-join y ys h.1)

module _ (sep : ℕ) where
  pub has_char-append : (a b : String) → has_char sep (a <> b) ≡ (has_char sep a || has_char sep b)
  unfolding has_char
  has_char-append String.[] b = refl
  has_char-append (String.◌∷◌ c a) b = ground (arith, has_char-append a b)

  pub join-IsFree :
      (lead : String)
      → IsFree sep lead
      → (xs : List String) → AreFree sep xs
      → IsFree sep (join lead xs)
  unfolding join has_char
  join-IsFree lead f [] h = refl
  join-IsFree lead f (x ∷ []) h = h.0
  join-IsFree lead f (x ∷ y ∷ ys) h =
      let rest = join-IsFree lead f (y ∷ ys) h.1 in
      let e = has_char-append lead (join lead (y ∷ ys)) in
      let k = has_char-append x (lead <> join lead (y ∷ ys)) in rw (k, h.0, e, f) rest

  -- A piece of a text without some character is without it too.
  pub split_on-keeps_free : (lead : ℕ) (s : String) → IsFree sep s → AreFree sep (split_on lead s)
  unfolding split_on has_char push_head
  split_on-keeps_free lead String.[] h = (refl, tt)
  split_on-keeps_free lead (String.◌∷◌ c s) h =
      let rest = split_on-keeps_free lead s (ground arith) in
      elim (Bool-cases (code c == lead)) [
        | inl e ↦ rw e (refl, rest)
        | inr e ↦ rw e (push_head-AreFree sep c (ground arith) (split_on lead s) rest)
      ]

  pub partition-IsFree_first : (s : String) → IsFree sep (partition sep s).0
  unfolding partition has_char
  partition-IsFree_first String.[] = refl
  partition-IsFree_first (String.◌∷◌ c s) = elim (Bool-cases (code c == sep)) [
    | inl e ↦ rw e refl
    | inr e ↦ rw (e, e) (partition-IsFree_first s)
  ]

pub append_empty : (s : String) → s <> "" ≡ s
append_empty String.[] = refl
append_empty (String.◌∷◌ c s) = ap (String.◌∷◌ c) (append_empty s)

-- A split has a first piece.
module _ (sep : ℕ) where
  push_head-cons :
      (c : Char) (l : List String) → (x : String) × (xs : List String) × (push_head c l ≡ x ∷ xs)
  unfolding push_head
  push_head-cons c [] = (String.◌∷◌ c "", [], refl)
  push_head-cons c (x ∷ xs) = (String.◌∷◌ c x, xs, refl)

  pub split_on-cons : (s : String) → (x : String) × (xs : List String) × (split_on sep s ≡ x ∷ xs)
  unfolding split_on
  split_on-cons String.[] = ("", [], refl)
  split_on-cons (String.◌∷◌ c s) = elim (Bool-cases (code c == sep)) [
    | inl e ↦ rw e ("", split_on sep s, refl)
    | inr e ↦ rw e (push_head-cons c (split_on sep s))
  ]
