-- ===== src/Adguard/RoundTrip.antt =====
-- Adguard/Rule: a rule that is put together from its parts is taken apart into them, and what a rule
-- is taken apart into can be put together.
use opti_gate.Base.{String, List, [], ◌∷◌, Option, none, some, Bool, true, false, ◌<>◌}
use opti_gate.Base.{◌≡◌, refl, ap, ◌∙◌, subst, >>=-eq-some, some_inj, Option-cases, inl, inr}
use opti_gate.Base.{drop_prefix, cut, partition, split_on, join}
use opti_gate.Base.{IsFree, AreFree, cut-append, partition-append, partition-IsFree, cut-eq-some}
use opti_gate.Base.{
  split_on-join, split_on-cons, split_on-AreFree, split_on-keeps_free, partition-IsFree_first,
}
use opti_gate.Base.{join-IsFree, append_empty, has_char}
use opti_gate.Adguard.Rule.{RuleParts, split_modifiers, split_clients, split_parts, split_rule}
use opti_gate.Adguard.Rule.{modifiers_of, rebuild_rule}

-- A rule without clients has no modifier that reads as a list of clients; a list of clients has an
-- entry, and none with a comma or a bar.
abbrev pub AreClients : Option (List String) → String → Type 0
AreClients none suffix = drop_prefix "client=" suffix ≡ none
AreClients (some []) suffix = ⊥
AreClients (some (x ∷ xs)) suffix = AreFree b',' (x ∷ xs) × AreFree b'|' (x ∷ xs)

-- The parts of a rule that this module builds: no slash in the body, and clients as above.
abbrev pub IsWellFormed : RuleParts → Type 0
IsWellFormed p = IsFree b'/' p.body × AreClients p.client_ips p.suffix

abbrev pub parts : Bool → String → Option (List String) → String → RuleParts
parts is_allow body client_ips suffix = record {
  is_allow = is_allow;
  body = body;
  client_ips = client_ips;
  suffix = suffix;
}

module _ (is_allow : Bool) (body : String) where
  abbrev with_clients : String × String → RuleParts
  with_clients (client_part, suffix) = parts is_allow body (some (split_on b'|' client_part)) suffix

  clients_lem :
      (x : String) (xs : List String) (tail suffix : String)
      → AreClients (some (x ∷ xs)) suffix
      → (IsFree b',' (join "|" (x ∷ xs))
          → partition b',' (join "|" (x ∷ xs) <> tail) ≡ (join "|" (x ∷ xs), suffix))
      → with_clients (partition b',' (join "|" (x ∷ xs) <> tail))
        ≡ parts is_allow body (some (x ∷ xs)) suffix
  unfolding has_char
  clients_lem x xs tail suffix h cut_off =
      ap with_clients (cut_off (join-IsFree b',' "|" refl (x ∷ xs) h.0))
      ∙ ap (λ l. parts is_allow body (some l) suffix) (split_on-join "|" x xs h.1)

  split_modifiers-modifiers_of :
      (client_ips : Option (List String)) (suffix : String)
      → AreClients client_ips suffix
      → split_modifiers is_allow body (modifiers_of client_ips suffix)
        ≡ parts is_allow body client_ips suffix
  unfolding drop_prefix
  split_modifiers-modifiers_of none String.[] h = refl
  split_modifiers-modifiers_of none (String.◌∷◌ c s) h = ap (split_clients is_allow body _) h
  split_modifiers-modifiers_of (some []) suffix h = absurd h
  split_modifiers-modifiers_of (some (x ∷ xs)) String.[] h =
      clients_lem x xs "" "" h
        (λ f. ap (partition b',') (append_empty _) ∙ partition-IsFree b',' (join "|" (x ∷ xs)) f)
  split_modifiers-modifiers_of (some (x ∷ xs)) (String.◌∷◌ c s) h =
      clients_lem x xs ("," <> String.◌∷◌ c s) (String.◌∷◌ c s) h
        (λ f. partition-append "," (join "|" (x ∷ xs)) (String.◌∷◌ c s) f)

  split_parts_lem :
      (modifiers : String)
      → IsFree b'/' body
      → split_parts is_allow ("/" <> body <> "/" <> modifiers)
        ≡ some (split_modifiers is_allow body modifiers)
  unfolding split_parts cut
  split_parts_lem modifiers f = rw (cut-append "/" body modifiers f) refl

rebuilt :
    (is_allow : Bool) (body : String) (client_ips : Option (List String)) (suffix : String)
    → IsWellFormed (parts is_allow body client_ips suffix)
    → split_rule (rebuild_rule (parts is_allow body client_ips suffix))
      ≡ some (parts is_allow body client_ips suffix)
unfolding split_rule rebuild_rule drop_prefix
rebuilt true body client_ips suffix (f, h) =
    split_parts_lem true body (modifiers_of client_ips suffix) f
    ∙ ap some (split_modifiers-modifiers_of true body client_ips suffix h)
rebuilt false body client_ips suffix (f, h) =
    split_parts_lem false body (modifiers_of client_ips suffix) f
    ∙ ap some (split_modifiers-modifiers_of false body client_ips suffix h)

-- What `_rebuild_rule` writes, `_split_rule` reads back, wherever the body has no slash, no client
-- has a comma or a bar, and a rule without clients has no modifier that begins with "client=".
pub split_rule-rebuild_rule :
    (p : RuleParts) → IsWellFormed p → split_rule (rebuild_rule p) ≡ some p
split_rule-rebuild_rule p h = rebuilt p.is_allow p.body p.client_ips p.suffix h

non_empty :
    (l : List String) (suffix : String)
    → ((x : String) × (xs : List String) × (l ≡ x ∷ xs))
    → AreFree b',' l
    → AreFree b'|' l
    → AreClients (some l) suffix
non_empty [] suffix (x, xs, e) f g = cc
non_empty (y ∷ ys) suffix _ f g = (f, g)

split_clients-IsWellFormed :
    (is_allow : Bool) (body modifiers : String) (o : Option String)
    → IsFree b'/' body
    → drop_prefix "client=" modifiers ≡ o
    → IsWellFormed (split_clients is_allow body modifiers o)
split_clients-IsWellFormed is_allow body modifiers none f e = (f, e)
split_clients-IsWellFormed is_allow body modifiers (some rest) f e =
    let client_part = (partition b',' rest).0 in
    (
      f,
      non_empty (split_on b'|' client_part) _ (split_on-cons b'|' client_part)
          (split_on-keeps_free b',' b'|' client_part (partition-IsFree_first b',' rest))
          (split_on-AreFree b'|' client_part),
    )

split_modifiers-IsWellFormed :
    (is_allow : Bool) (body modifiers : String)
    → IsFree b'/' body
    → IsWellFormed (split_modifiers is_allow body modifiers)
unfolding drop_prefix
split_modifiers-IsWellFormed is_allow body String.[] f = (f, refl)
split_modifiers-IsWellFormed is_allow body (String.◌∷◌ c s) f =
    split_clients-IsWellFormed is_allow body s _ f refl

split_parts-IsWellFormed :
    (is_allow : Bool) (rule : String) (p : RuleParts)
    → split_parts is_allow rule ≡ some p
    → IsWellFormed p
unfolding split_parts
split_parts-IsWellFormed is_allow rule p h =
    let (first, e, k) = >>=-eq-some (cut b'/' rule) _ h in
    let (second, e', k') = >>=-eq-some (cut b'/' first.1) _ k in
    subst IsWellFormed (some_inj k') (
      split_modifiers-IsWellFormed is_allow second.0 second.1
        (cut-eq-some b'/' first.1 second.0 second.1 e'))

-- The parts that `_split_rule` reads are always well-formed.
pub split_rule-IsWellFormed :
    (rule : String) (p : RuleParts) → split_rule rule ≡ some p → IsWellFormed p
unfolding split_rule
split_rule-IsWellFormed rule p h = elim (Option-cases (drop_prefix "@@" rule)) [
  | inl e ↦ split_parts-IsWellFormed false rule p (rw e at h)
  | inr (rest, e) ↦ split_parts-IsWellFormed true rest p (rw e at h)
]
