-- ===== src/Identity/Released.antt =====
-- common/identity.py, lines 145 to 216: what the conflict handling leaves active, and what the new
-- binding is.
use opti_gate.Base.{ℕ, String, none, some, List, [], ◌∷◌, Bool, true, false}
use opti_gate.Base.{◌==◌, nat_eq, string_eq, find?, any}
use opti_gate.Base.{
  ◌≡◌, refl, subst, ◌⊎◌, sym, ◌∙◌, ap, inl, inr, arith, Bool-cases, Option-cases, In,
}
use opti_gate.Base.{update_where-In, any-update_where, find?-In, eq_of_beq, beq_refl}
use opti_gate.Tables.{Database, Binding, HasUniqueAddresses}
use opti_gate.Identity.Events.{record_event}
use opti_gate.Identity.Bindings.{is_pair, holds_ip, has_id, deactivated, deactivate, release_ip}
use opti_gate.Identity.Bindings.{release_mac, mac_conflict}

-- An active binding that a deactivation leaves was there, and is not the one deactivated.
deactivate-In :
    (i : ℕ) (rows : List Binding) (b : Binding)
    → In b (deactivate i rows)
    → b.active ≡ true
    → In b rows × (has_id i b ≡ false)
unfolding deactivate deactivated
deactivate-In i rows b m h =
    let (a, k, d) = update_where-In (has_id i) deactivated b rows m in
    elim d [
      | inl d ↦
          absurd (let q : b.active ≡ false = ap (λ (z : Binding). z.active) d.1 in ground arith)
      | inr d ↦ rw d.1 (k, d.0)
    ]

has_id_self : (b : Binding) → has_id b.id b ≡ true
unfolding has_id
has_id_self b = beq_refl b.id

pub is_pair-deactivated :
    (mac ip : String) (b : Binding) → is_pair mac ip (deactivated b) ≡ is_pair mac ip b
unfolding is_pair deactivated
is_pair-deactivated mac ip b = refl

any-deactivate :
    (p : Binding → Bool)
    → ((b : Binding) → p (deactivated b) ≡ p b)
    → (i : ℕ) (rows : List Binding) → any p (deactivate i rows) ≡ any p rows
unfolding deactivate
any-deactivate p h i rows = any-update_where (has_id i) deactivated p h rows

-- The two queries of the conflict handling.
pub holds_ip-fields :
    (ip : String) (b : Binding) → holds_ip ip b ≡ true → (b.ipv4_address ≡ ip) × (b.active ≡ true)
unfolding holds_ip
holds_ip-fields ip b h = (eq_of_beq b.ipv4_address ip (ground arith), ground arith)

pub fields-holds_ip :
    (ip : String) (b : Binding) → b.ipv4_address ≡ ip → b.active ≡ true → holds_ip ip b ≡ true
unfolding holds_ip
fields-holds_ip ip b e a = rw (e, a, beq_refl ip) refl

find?-none :
    (p : Binding → Bool) (b : Binding) (rows : List Binding)
    → find? p rows ≡ none
    → In b rows
    → p b ≡ true
    → ⊥
unfolding find?
find?-none p b [] h m k = m
find?-none p b (x ∷ xs) h (inl e) k = let q : p x ≡ true = rw (← e, k) refl in ground arith
find?-none p b (x ∷ xs) h (inr r) k = elim (Bool-cases (p x)) [
  | inl q ↦ ground arith
  | inr q ↦ find?-none p b xs (rw q at h) r k
]

module _ (db : Database) (mac ip source : String) (now : ℕ) where
  -- The bindings after the first conflict's handling.
  pub release_ip-cases :
      ((find? (holds_ip ip) db.device_bindings ≡ none)
        × ((release_ip db mac ip source now).device_bindings ≡ db.device_bindings))
      ⊎ ((c : Binding) × (find? (holds_ip ip) db.device_bindings ≡ some c)
          × ((release_ip db mac ip source now).device_bindings
              ≡ deactivate c.id db.device_bindings))
  unfolding release_ip record_event
  release_ip-cases = elim (Option-cases (find? (holds_ip ip) db.device_bindings)) [
    | inl e ↦ inl (e, rw (release_ip, e) refl)
    | inr (c, e) ↦ inr (c, e, rw (release_ip, e) refl)
  ]

  -- The bindings after the second's: all as they were, or the MAC's other address is given up.
  pub release_mac-cases :
      ((release_mac db mac ip source now).device_bindings ≡ db.device_bindings)
      ⊎ ((c : Binding) × (mac_conflict db mac ≡ some c)
          × ((release_mac db mac ip source now).device_bindings
              ≡ deactivate c.id db.device_bindings))
  unfolding release_mac record_event
  release_mac-cases = elim (Option-cases (mac_conflict db mac)) [
    | inl e ↦ inl (rw (release_mac, e) refl)
    | inr (c, e) ↦ elim (Bool-cases (c.ipv4_address == ip)) [
      | inl k ↦ inl (rw (release_mac, e, k) refl)
      | inr k ↦ inr (c, e, rw (release_mac, e, k) refl)
    ]
  ]

  -- Whatever is active after the first conflict's handling was active, and nobody holds the address.
  pub release_ip-In :
      HasUniqueAddresses db
      → (b : Binding) → In b (release_ip db mac ip source now).device_bindings
      → b.active ≡ true
      → In b db.device_bindings × (b.ipv4_address ≡ ip → ⊥)
  release_ip-In u b m h = elim release_ip-cases [
    | inl (e, l) ↦
        let i : In b db.device_bindings = subst (In b) l m in
        (i, λ q. find?-none (holds_ip ip) b db.device_bindings e i (fields-holds_ip ip b q h))
    | inr (c, e, l) ↦
        let (ic, kc) = find?-In (holds_ip ip) c db.device_bindings e in
        let (i, n) = deactivate-In c.id db.device_bindings b (subst (In b) l m) h in
        let f = holds_ip-fields ip c kc in
        (
          i,
          λ q.
              let w : has_id c.id b ≡ true = rw (u b c i ic h f.1 (q ∙ sym f.0)) (has_id_self c) in
              ground arith,
        )
  ]

  pub release_mac-In :
      (b : Binding)
      → In b (release_mac db mac ip source now).device_bindings
      → b.active ≡ true
      → In b db.device_bindings
  release_mac-In b m h = elim release_mac-cases [
    | inl l ↦ subst (In b) l m
    | inr (c, e, l) ↦ (deactivate-In c.id db.device_bindings b (subst (In b) l m) h).0
  ]

  pub release_ip-any :
      (p : Binding → Bool)
      → ((b : Binding) → p (deactivated b) ≡ p b)
      → any p (release_ip db mac ip source now).device_bindings ≡ any p db.device_bindings
  release_ip-any p h = elim release_ip-cases [
    | inl (e, l) ↦ ap (any p) l
    | inr (c, e, l) ↦ ap (any p) l ∙ any-deactivate p h c.id db.device_bindings
  ]

  pub release_mac-any :
      (p : Binding → Bool)
      → ((b : Binding) → p (deactivated b) ≡ p b)
      → any p (release_mac db mac ip source now).device_bindings ≡ any p db.device_bindings
  release_mac-any p h = elim release_mac-cases [
    | inl l ↦ ap (any p) l
    | inr (c, e, l) ↦ ap (any p) l ∙ any-deactivate p h c.id db.device_bindings
  ]

  pub release_ip-devices : (release_ip db mac ip source now).devices ≡ db.devices
  unfolding release_ip record_event
  release_ip-devices = elim (Option-cases (find? (holds_ip ip) db.device_bindings)) [
    | inl e ↦ rw (release_ip, e) refl
    | inr (c, e) ↦ rw (release_ip, e) refl
  ]

  pub release_mac-devices : (release_mac db mac ip source now).devices ≡ db.devices
  unfolding release_mac record_event
  release_mac-devices = elim (Option-cases (mac_conflict db mac)) [
    | inl e ↦ rw (release_mac, e) refl
    | inr (c, e) ↦ elim (Bool-cases (c.ipv4_address == ip)) [
      | inl k ↦ rw (release_mac, e, k) refl
      | inr k ↦ rw (release_mac, e, k) refl
    ]
  ]
