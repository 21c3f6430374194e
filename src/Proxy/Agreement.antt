-- ===== src/Proxy/Agreement.antt =====
-- proxy/sni_helper.py and proxy/authz_helper.py: the two helpers on a domain that is not decrypted.
use opti_gate.Base.{ℕ, String, Option, none, some, Bool, true, false}
use opti_gate.Base.{
  ◌≡◌, refl, sym, ap, ◌∙◌, inl, inr, arith, Bool-cases, Option-cases, some_inj, is_some,
}
use opti_gate.Base.{any, ◌==◌, string_eq}
use opti_gate.Tables.{Database, Domain, Device, User, Mode, splice, bump, trusted}
use opti_gate.Platform.{Platform, Resolver}
use opti_gate.Matching.Lan.{ip_in_configured_lan}
use opti_gate.Identity.Bindings.{create_pending_device}
use opti_gate.Identity.Resolve.{
  resolve_device, heal, adopt, healed_device, owner_of_ip, orphaned_binding,
}
use opti_gate.Proxy.Domains.{find_domain}
use opti_gate.Proxy.Sni.{splice_device, splice_resolved, handle_splice, is_other_mode, is_splice}
use opti_gate.Proxy.Authz.{decided, decide_mode, decide_resolved, decide_device, decide_host}
use opti_gate.Base.{◌⊎◌}

-- The answer to Squid, without the log.
abbrev pub answer_of : Option (Database × Bool) → Option Bool
answer_of none = none
answer_of (some x) = some x.1

heal-domains :
    (db : Database) (mac : String) (now : ℕ) (db' : Database) (d : Option Device)
    → heal db mac now ≡ some (db', d)
    → db'.domains ≡ db.domains
unfolding heal create_pending_device adopt
heal-domains db mac now db' d h = elim (Option-cases (healed_device db mac)) [
  | inr (x, e) ↦
      let q = some_inj (rw (heal, e) at h) in
      ap (λ (z : Database × Option Device). z.0.domains) (sym q)
  | inl e ↦ elim (Bool-cases (any (λ (z : Device). z.mac_address == mac) db.devices)) [
    | inl k ↦ absurd (let q = rw (heal, e, create_pending_device, k) at h in ground arith)
    | inr k ↦
        let q = some_inj (rw (heal, e, create_pending_device, k) at h) in
        ap (λ (z : Database × Option Device). z.0.domains) (sym q)
  ]
]

resolve_device-domains :
    (db : Database) (ip : String) (now : ℕ) (db' : Database) (d : Option Device)
    → resolve_device db ip now ≡ some (db', d)
    → db'.domains ≡ db.domains
unfolding resolve_device
resolve_device-domains db ip now db' d h = elim (Option-cases (owner_of_ip db ip)) [
  | inr (x, e) ↦
      let q = some_inj (rw (resolve_device, e) at h) in
      ap (λ (z : Database × Option Device). z.0.domains) (sym q)
  | inl e ↦ elim (Option-cases (orphaned_binding db ip)) [
    | inl o ↦
        let q = some_inj (rw (resolve_device, e, o) at h) in
        ap (λ (z : Database × Option Device). z.0.domains) (sym q)
    | inr (a, o) ↦ heal-domains db a.mac_address now db' d (rw (resolve_device, e, o) at h)
  ]
]

find_domain-domains :
    (π : Platform) (db db' : Database) (hostname : String)
    → db'.domains ≡ db.domains
    → find_domain π db' hostname ≡ find_domain π db hostname
unfolding find_domain
find_domain-domains π db db' hostname h = rw (find_domain, h) refl

module _ (π : Platform) (resolver : Resolver) (now : ℕ) (ip sni path : String) where
  decide_mode-splice :
      (db : Database) (device : Device) (d : Domain) (user : Option User) (mode : Mode)
      (reason : Option String)
      → is_splice mode ≡ true
      → (decide_mode π resolver now ip sni path db device d user mode reason).1 ≡ is_some reason
  unfolding decide_mode decided
  decide_mode-splice db device d user splice reason h = refl
  decide_mode-splice db device d user bump reason h = absurd (ground arith)
  decide_mode-splice db device d user trusted reason h = absurd (ground arith)

  splice_device-decide_device :
      (db : Database) (device : Device) (domain : Option Domain)
      → is_other_mode domain ≡ false
      → (splice_device db now ip sni domain device).1
        ≡ (decide_device π resolver now ip sni path db device domain).1
  unfolding splice_device decide_device decided is_other_mode
  splice_device-decide_device db device none h = refl
  splice_device-decide_device db device (some d) h =
      sym (decide_mode-splice db device d _ d.mode _ (ground arith))

  splice_resolved-decide_resolved :
      (domain : Option Domain) (r : Option (Database × Option Device))
      → is_other_mode domain ≡ false
      → ((db' : Database) (d : Option Device) → r ≡ some (db', d) → find_domain π db' sni ≡ domain)
      → answer_of (splice_resolved now ip sni domain r)
        ≡ answer_of (decide_resolved π resolver now ip sni path r)
  unfolding splice_resolved decide_resolved
  splice_resolved-decide_resolved domain none h f = refl
  splice_resolved-decide_resolved domain (some (db, none)) h f = refl
  splice_resolved-decide_resolved domain (some (db, some device)) h f = ap some (
      splice_device-decide_device db device domain h
      ∙ ap (λ z. (decide_device π resolver now ip sni path db device z).1)
          (sym (f db (some device) refl)))

-- The name has no configured domain, or one in mode splice.
abbrev pub IsUnconfiguredOrSpliced : Option Domain → Type 0
IsUnconfiguredOrSpliced o = (o ≡ none) ⊎ ((d : Domain) × (o ≡ some d) × (d.mode ≡ splice))

spliced-other : (o : Option Domain) → IsUnconfiguredOrSpliced o → is_other_mode o ≡ false
unfolding is_other_mode
spliced-other o (inl e) = rw e refl
spliced-other o (inr (d, e, m)) = rw (e, m) refl

-- For a name that is unconfigured or whose domain is in mode splice, the answer to the TLS
-- connection and the answer to a plain HTTP request of any path are the same, exceptions included.
-- Names in mode trusted or bump, for which other handlers answer the TLS connection, are left out.
pub handle_splice-decide_host :
    (π : Platform) (resolver : Resolver) (db : Database) (now : ℕ) (ip sni path : String)
    → IsUnconfiguredOrSpliced (find_domain π db sni)
    → answer_of (handle_splice π db now ip sni)
      ≡ answer_of (decide_host π resolver now ip sni path db)
unfolding handle_splice decide_host decided
handle_splice-decide_host π resolver db now ip sni path name =
    let h = spliced-other (find_domain π db sni) name in
    elim (Bool-cases (ip_in_configured_lan π db ip)) [
      | inr k ↦ rw (handle_splice, decide_host, h, k) refl
      | inl k ↦
          rw (handle_splice, decide_host, h, k)
            (splice_resolved-decide_resolved π resolver now ip sni path (find_domain π db sni)
              (resolve_device db ip now) h
              (λ db' d e.
                find_domain-domains π db db' sni (resolve_device-domains db ip now db' d e)))
    ]
