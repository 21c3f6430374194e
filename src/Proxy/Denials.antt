-- ===== src/Proxy/Denials.antt =====
-- proxy/authz_helper.py: which denials are in the access log.
use opti_gate.Base.{ℕ, String, Option, none, some, Bool, true, false}
use opti_gate.Base.{◌≡◌, refl, ap, inl, inr, ◌⊎◌, arith, Bool-cases, subst, some_inj}
use opti_gate.Tables.{
  Database, Domain, Device, User, Mode, Kind, splice, bump, trusted, generic, crunchyroll,
}
use opti_gate.Platform.{Platform, Resolver}
use opti_gate.Matching.Lan.{ip_in_configured_lan}
use opti_gate.Identity.Resolve.{resolve_device, resolve_user_for_device, log_identity_fields}
use opti_gate.Proxy.Log.{log_access}
use opti_gate.Proxy.Domains.{find_domain, root_of}
use opti_gate.Proxy.Sni.{access_row}
use opti_gate.Proxy.Shows.{decide_crunchyroll, path_allowed_or_bare_root}
use opti_gate.Proxy.Authz.{
  decided, decide_mode, decide_resolved, decide_bump, decide_device, decide_host, decide,
  split_host_port,
}
use opti_gate.Proxy.Recorded.{IsRecorded, log_access_lem}
use opti_gate.Proxy.ShowDenials.{HasDenial, IsLogged, decide_kind-IsLogged}

-- The name that a row of the log has for the person.
abbrev pub username_of : Option Device → Option User → String
username_of device user = (log_identity_fields device user).1

-- The decisions that are not about a show.
module _ (π : Platform) (resolver : Resolver) (now : ℕ) (ip hostname path : String) where
  decided-IsLogged :
      (db : Database) (device : Option Device) (user : Option User) (allowed : Bool)
      (reason : String)
      → IsLogged
          (decided π resolver now ip hostname path db device user allowed reason)
          now
          (username_of device user)
          hostname
  unfolding decided access_row
  decided-IsLogged db device user allowed reason h =
      let e = access_row device user ip hostname (some path) allowed reason in
      subst (IsRecorded (log_access db now e) now e.username hostname) h (log_access_lem db now e)

  decide_bump-IsLogged :
      (db : Database) (device : Device) (domain : Domain) (reason : String) (kind : Kind)
      (user : Option User)
      → IsLogged
          (decide_bump π resolver now ip hostname path db device domain reason kind user)
          now
          (username_of (some device) user)
          hostname
  unfolding decide_bump decide_crunchyroll decided log_identity_fields
  decide_bump-IsLogged db device domain reason crunchyroll none h = decided-IsLogged db _ _ _ _ h
  decide_bump-IsLogged db device domain reason crunchyroll (some u) h =
      decide_kind-IsLogged now u hostname ip path π resolver db domain _ _ h
  decide_bump-IsLogged db device domain reason generic user h =
      elim (Bool-cases (path_allowed_or_bare_root π db domain.id path)) [
        | inl k ↦
            rw (decide_bump, k)
              (decided-IsLogged db (some device) user true reason (rw (decide_bump, k) at h))
        | inr k ↦
            rw (decide_bump, k)
              (decided-IsLogged db (some device) user false "path_not_allowed" refl)
      ]

  decide_mode-IsLogged :
      (db : Database) (device : Device) (domain : Domain) (user : Option User) (mode : Mode)
      (reason : Option String)
      → IsLogged
          (decide_mode π resolver now ip hostname path db device domain user mode reason)
          now
          (username_of (some device) user)
          hostname
  unfolding decide_mode
  decide_mode-IsLogged db device domain user trusted reason h = absurd (ground arith)
  decide_mode-IsLogged db device domain user splice reason h = decided-IsLogged db _ _ _ _ h
  decide_mode-IsLogged db device domain user bump none h = decided-IsLogged db _ _ _ _ h
  decide_mode-IsLogged db device domain user bump (some reason) h =
      decide_bump-IsLogged db device domain reason domain.kind user h

  decide_device-IsLogged :
      (db : Database) (device : Device) (domain : Option Domain)
      → IsLogged
          (decide_device π resolver now ip hostname path db device domain)
          now
          (username_of (some device) (resolve_user_for_device db (some device)))
          hostname
  unfolding decide_device
  decide_device-IsLogged db device none h = decided-IsLogged db _ _ _ _ h
  decide_device-IsLogged db device (some domain) h =
      decide_mode-IsLogged db device domain _ domain.mode _ h

  -- A device was found, and the log has a denial for its user, or for the device where it has none.
  abbrev pub HasDeviceDenial : Option (Database × Option Device) → Database → Type 0
  HasDeviceDenial r db' =
      (db : Database) × (device : Device) × (r ≡ some (db, some device))
      × HasDenial db' now (username_of (some device) (resolve_user_for_device db (some device)))
          hostname

  decide_resolved-IsLogged :
      (r : Option (Database × Option Device)) (db' : Database)
      → decide_resolved π resolver now ip hostname path r ≡ some (db', false)
      → HasDeviceDenial r db' ⊎ (r ≡ some (db', none))
  unfolding decide_resolved
  decide_resolved-IsLogged none db' h = absurd (ground arith)
  decide_resolved-IsLogged (some (db, none)) db' h =
      inr (ap (λ z. some (z, none)) (ap (λ (z : Database × Bool). z.0) (some_inj h)))
  decide_resolved-IsLogged (some (db, some device)) db' h =
      let q = some_inj h in
      inl (
        db,
        device,
        refl,
        subst
            (λ (z : Database).
              HasDenial z now (username_of (some device) (resolve_user_for_device db (some device)))
                hostname)
            (ap (λ (z : Database × Bool). z.0) q)
            (decide_device-IsLogged db device (find_domain π db hostname)
              (ap (λ (z : Database × Bool). z.1) q)),
      )

-- A denied request to a name is in the access log as a denial of that name of the last five
-- minutes: for the user of the device that was found for the address, or for the device where it has
-- no user; for an unknown person where the address is outside the configured network; unless no
-- device was found for the address.
pub decide-HasDenial :
    (π : Platform) (resolver : Resolver) (db db' : Database) (now : ℕ) (client_ip dst path : String)
    → decide π resolver db now client_ip dst path ≡ some (db', false)
    → ((ip_in_configured_lan π db client_ip ≡ false)
        × HasDenial db' now "(unauthenticated)" (split_host_port dst))
      ⊎ ((ip_in_configured_lan π db client_ip ≡ true)
          × (HasDeviceDenial π resolver now client_ip
                (split_host_port dst)
                (root_of path)
                (resolve_device db client_ip now)
                db'
              ⊎ (resolve_device db client_ip now ≡ some (db', none))))
unfolding decide decide_host decided log_identity_fields
decide-HasDenial π resolver db db' now ip dst path h =
    elim (Bool-cases (ip_in_configured_lan π db ip)) [
      | inl k ↦ inr (
        k,
        decide_resolved-IsLogged π resolver now ip (split_host_port dst) (root_of path) _ db'
            (rw (decide, decide_host, k) at h),
      )
      | inr k ↦
          let q = some_inj (rw (decide, decide_host, k) at h) in
          inl (
            k,
            subst (λ (z : Database). HasDenial z now "(unauthenticated)" (split_host_port dst))
                (ap (λ (z : Database × Bool). z.0) q)
                (decided-IsLogged π resolver now ip (split_host_port dst) (root_of path) db none
                  none false "outside_lan" refl),
          )
    ]
