-- ===== src/Adguard/Merging.antt =====
-- Adguard/Merge: the groups have distinct keys, and merge to well-formed rules.
use opti_gate.Base.{String, List, [], ◌∷◌, ◌++◌, Option, none, some, true, map}
use opti_gate.Base.{◌≡◌, refl, sym, subst, inl, inr, ◌⊎◌}
use opti_gate.Base.{In, All, all-in, NoDup, In-append_right}
use opti_gate.Base.{Bool-cases, >>=-eq-some, some_inj, string_eq}
use opti_gate.Base.{IsFree}
use opti_gate.Adguard.Rule.{RuleParts, split_rule}
use opti_gate.Adguard.RoundTrip.{AreClients, IsWellFormed}
use opti_gate.Adguard.RoundTrip.{split_rule-IsWellFormed}
use opti_gate.Adguard.Merge.{RuleKey, key_of, key_beq, RuleGroup, add_to_group, group_rules}
use opti_gate.Adguard.Merge.{add_unseen, union_of, merge_group}
use opti_gate.Adguard.Groups.{key_beq-eq, key_beq_refl}
use opti_gate.Adguard.Groups.{In-add_unseen}

-- No client of a list of clients holds a character that separates them.
abbrev pub IsPlain : String → Type 0
IsPlain ip = IsFree b',' ip × IsFree b'|' ip

-- A group whose members are well-formed rules of its key.
abbrev pub IsGood : RuleGroup → Type 0
IsGood g =
    IsFree b'/' g.key.body
    × All (λ l. AreClients l g.key.suffix) g.client_lists
    × ((l : Option (List String)) × In l g.client_lists)

All-append :
    (P : Option (List String) → Type 0) (xs : List (Option (List String)))
    (y : Option (List String))
    → All P xs
    → P y
    → All P (xs ++ (y ∷ []))
All-append P [] y h k = (k, tt)
All-append P (x ∷ xs) y h k = (h.0, All-append P xs y h.1 k)

add_to_group-IsGood :
    (p : RuleParts) (groups : List RuleGroup)
    → IsWellFormed p
    → All IsGood groups
    → All IsGood (add_to_group (key_of p) p.client_ips groups)
unfolding add_to_group
add_to_group-IsGood p [] w h = ((w.0, (w.1, tt), (p.client_ips, inl refl)), tt)
add_to_group-IsGood p (g ∷ groups) w h = elim (Bool-cases (key_beq (key_of p) g.key)) [
  | inl e ↦
      let same = key_beq-eq (key_of p) g.key e in
      let clients = subst (λ z. AreClients p.client_ips z.suffix) same w.1 in
      rw e (
        (
          h.0.0,
          All-append (λ l. AreClients l g.key.suffix) g.client_lists p.client_ips h.0.1 clients,
          (p.client_ips, In-append_right p.client_ips g.client_lists _ (inl refl)),
        ),
        h.1,
      )
  | inr e ↦ rw e (h.0, add_to_group-IsGood p groups w h.1)
]

pub group_rules-IsGood :
    (rules : List String) (groups out : List RuleGroup)
    → group_rules rules groups ≡ some out
    → All IsGood groups
    → All IsGood out
unfolding group_rules
group_rules-IsGood [] groups out h good = subst (All IsGood) (some_inj h) good
group_rules-IsGood (rule ∷ rules) groups out h good =
    let (p, e, k) = >>=-eq-some (split_rule rule) _ h in
    group_rules-IsGood rules _ out k
      (add_to_group-IsGood p groups (split_rule-IsWellFormed rule p e) good)

abbrev pub keys : List RuleGroup → List RuleKey
keys = map (λ (g : RuleGroup). g.key)

keys-add_to_group :
    (k x : RuleKey) (l : Option (List String)) (groups : List RuleGroup)
    → In x (keys (add_to_group k l groups))
    → (x ≡ k) ⊎ In x (keys groups)
unfolding add_to_group
keys-add_to_group k x l [] m = elim m [ inl e ↦ inl e | inr z ↦ absurd z ]
keys-add_to_group k x l (g ∷ groups) m = elim (Bool-cases (key_beq k g.key)) [
  | inl e ↦ inr (rw e at m)
  | inr e ↦ elim (rw e at m) [
    | inl q ↦ inr (inl q)
    | inr i ↦ elim (keys-add_to_group k x l groups i) [ inl q ↦ inl q | inr j ↦ inr (inr j) ]
  ]
]

add_to_group-NoDup :
    (k : RuleKey) (l : Option (List String)) (groups : List RuleGroup)
    → NoDup (keys groups)
    → NoDup (keys (add_to_group k l groups))
unfolding add_to_group
add_to_group-NoDup k l [] h = (λ z. z, tt)
add_to_group-NoDup k l (g ∷ groups) h = elim (Bool-cases (key_beq k g.key)) [
  | inl e ↦ rw e h
  | inr e ↦ rw e (
    λ m. elim (keys-add_to_group k g.key l groups m) [
      | inl q ↦
          let t : key_beq k g.key ≡ true =
            subst (λ z. key_beq k z ≡ true) (sym q) (key_beq_refl k) in
          cc
      | inr i ↦ h.0 i
    ],
    add_to_group-NoDup k l groups h.1,
  )
]

pub group_rules-NoDup :
    (rules : List String) (groups out : List RuleGroup)
    → group_rules rules groups ≡ some out
    → NoDup (keys groups)
    → NoDup (keys out)
unfolding group_rules
group_rules-NoDup [] groups out h n = subst (λ z. NoDup (keys z)) (some_inj h) n
group_rules-NoDup (rule ∷ rules) groups out h n =
    let (p, e, k) = >>=-eq-some (split_rule rule) _ h in
    group_rules-NoDup rules _ out k (add_to_group-NoDup (key_of p) p.client_ips groups n)

In-All : (P : String → Type 0) (l : List String) → ((x : String) → In x l → P x) → All P l
In-All P [] h = tt
In-All P (x ∷ l) h = (h x (inl refl), In-All P l (λ y m. h y (inr m)))

module _ (suffix : String) where
  pub clients-AreClients :
      (l : List String)
      → ((x : String) × In x l)
      → ((x : String) → In x l → IsPlain x)
      → AreClients (some l) suffix
  clients-AreClients [] (x, m) h = absurd m
  clients-AreClients (y ∷ ys) _ h = (
    In-All (IsFree b',') (y ∷ ys) (λ x m. (h x m).0),
    In-All (IsFree b'|') (y ∷ ys) (λ x m. (h x m).1),
  )

  AreClients-clients :
      (l : List String)
      → AreClients (some l) suffix
      → ((x : String) × In x l) × ((x : String) → In x l → IsPlain x)
  AreClients-clients [] h = absurd h
  AreClients-clients (y ∷ ys) h = (
    (y, inl refl),
    λ x m. (all-in (IsFree b',') x (y ∷ ys) h.0 m, all-in (IsFree b'|') x (y ∷ ys) h.1 m),
  )

  union_of-AreClients :
      (lists : List (Option (List String))) (u : List String)
      → All (λ l. AreClients l suffix) lists
      → ((x : String) → In x u → IsPlain x)
      → ((x : String) × In x u) ⊎ ((l : Option (List String)) × In l lists)
      → AreClients (union_of lists u) suffix
  unfolding union_of
  union_of-AreClients [] u h f (inl m) = clients-AreClients u m f
  union_of-AreClients [] u h f (inr m) = absurd m.1
  union_of-AreClients (none ∷ lists) u h f m = h.0
  union_of-AreClients (some ips ∷ lists) u h f m =
      let ((x, i), g) = AreClients-clients ips h.0 in
      union_of-AreClients lists (add_unseen ips u) h.1
        (λ y j. elim ((In-add_unseen y ips u).0 j) [ inl k ↦ g y k | inr k ↦ f y k ])
        (inl (x, (In-add_unseen x ips u).1 (inl i)))

pub merge_group-IsWellFormed : (g : RuleGroup) → IsGood g → IsWellFormed (merge_group g)
unfolding merge_group
merge_group-IsWellFormed g (f, h, m) =
    (f, union_of-AreClients g.key.suffix g.client_lists [] h (λ x z. absurd z) (inr m))
