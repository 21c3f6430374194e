-- ===== src/Proxy/Permitted.antt =====
-- proxy/authz_helper.py: what an allowed request has.
use opti_gate.Base.{ℕ, String, Option, none, some, Bool, true, List, [], ◌∷◌, ◌&&◌, every}
use opti_gate.Base.{
  ◌≡◌, refl, ap, ◌∙◌, inl, inr, ◌⊎◌, arith, Bool-cases, Option-cases, subst, some_inj,
}
use opti_gate.Base.{any, ◌==◌, upper, nat_eq, string_eq}
use opti_gate.Tables.{
  Database, Domain, Device, User, row_of, Mode, Kind, splice, bump, trusted, generic, crunchyroll,
  UserShow,
}
use opti_gate.Platform.{Platform, Resolver}
use opti_gate.Matching.Axes.{Applies, device_domain_reason_iff}
use opti_gate.Proxy.Approved.{IsApproved, decide_kind-IsApproved}
use opti_gate.Proxy.Requests.{classify}
use opti_gate.Base.{is_some, In, ◌<>◌}
use opti_gate.Matching.Grants.{device_domain_reason}
use opti_gate.Matching.Lan.{ip_in_configured_lan}
use opti_gate.Identity.Resolve.{resolve_device, resolve_user_for_device}
use opti_gate.Proxy.Domains.{find_domain, root_of, user_has_show}
use opti_gate.Proxy.Shows.{path_allowed_or_bare_root, decide_crunchyroll, check_shows, log_show}
use opti_gate.Proxy.Authz.{
  decided, decide_bump, decide_mode, decide_resolved, decide_device, decide_host, decide,
  split_host_port,
}
use opti_gate.Proxy.Recorded.{log_access-user_shows}

module _ (π : Platform) (resolver : Resolver) (now : ℕ) (ip hostname path : String) where
  -- What a decrypted domain asks of an authorized request.
  pub data IsRefined (db : Database) (domain : Domain) : Kind → Option User → Type 0 where
    by_path :
        {user : Option User}
        → path_allowed_or_bare_root π db domain.id path ≡ true
        → IsRefined db domain generic user
    by_show :
        {user : User}
        → IsApproved π resolver now path db domain user
            (classify π ("https://" <> hostname <> path)).ids
            (classify π ("https://" <> hostname <> path)).kind
        → IsRefined db domain crunchyroll (some user)

  -- The domain is for everyone, or is linked to the device, its user or its group.
  abbrev pub IsAuthorized : Database → Device → Domain → Type 0
  IsAuthorized db device domain =
      Applies domain.is_global (λ u. In (u, domain.id) db.user_domains)
        (λ g. In (g, domain.id) db.group_domains) (λ d. In (d, domain.id) db.device_domains)
        device.user_id device.group_id (some device.id)

  authorized :
      (db : Database) (device : Device) (domain : Domain) (reason : Option String)
      → device_domain_reason db (row_of device) domain ≡ reason
      → is_some reason ≡ true
      → IsAuthorized db device domain
  unfolding row_of
  authorized db device domain reason e h =
      (device_domain_reason_iff db (row_of device) domain).0 (ap is_some e ∙ h)

  -- What an allowed request to a configured domain has.
  pub data IsPermitted (db : Database) (device : Device) (domain : Domain) (user : Option User)
      : Mode → Type 0 where
    unchecked : IsPermitted db device domain user trusted
    spliced : IsAuthorized db device domain → IsPermitted db device domain user splice
    decrypted :
        IsAuthorized db device domain
        → IsRefined db domain domain.kind user
        → IsPermitted db device domain user bump

  decide_bump-IsRefined :
      (db : Database) (device : Device) (domain : Domain) (reason : String) (kind : Kind)
      (user : Option User)
      → (decide_bump π resolver now ip hostname path db device domain reason kind user).1 ≡ true
      → IsRefined db domain kind user
  unfolding decide_bump decided decide_crunchyroll
  decide_bump-IsRefined db device domain reason crunchyroll none h = absurd (ground arith)
  decide_bump-IsRefined db device domain reason crunchyroll (some u) h =
      by_show (decide_kind-IsApproved now u hostname ip path π resolver db domain _ _ h)
  decide_bump-IsRefined db device domain reason generic user h =
      elim (Bool-cases (path_allowed_or_bare_root π db domain.id path)) [
        | inl k ↦ by_path k
        | inr k ↦ absurd (let q = rw (decide_bump, k) at h in ground arith)
      ]

  decide_mode-IsPermitted :
      (db : Database) (device : Device) (domain : Domain) (user : Option User) (mode : Mode)
      (reason : Option String)
      → device_domain_reason db (row_of device) domain ≡ reason
      → (decide_mode π resolver now ip hostname path db device domain user mode reason).1 ≡ true
      → IsPermitted db device domain user mode
  unfolding decide_mode decided
  decide_mode-IsPermitted db device domain user trusted reason e h = unchecked
  decide_mode-IsPermitted db device domain user splice reason e h =
      spliced (authorized db device domain reason e h)
  decide_mode-IsPermitted db device domain user bump none e h = absurd (ground arith)
  decide_mode-IsPermitted db device domain user bump (some r) e h =
      decrypted (authorized db device domain (some r) e refl)
        (decide_bump-IsRefined db device domain r domain.kind user h)

  -- The device that an allowed request comes from, and why it is allowed.
  abbrev pub IsAllowed : Database → Database → Type 0
  IsAllowed db db' =
      (dev : Device) × (resolve_device db ip now ≡ some (db', some dev))
      × ((find_domain π db' hostname ≡ none)
          ⊎ ((d : Domain) × (find_domain π db' hostname ≡ some d)
              × IsPermitted db' dev d (resolve_user_for_device db' (some dev)) d.mode))

  decide_resolved-IsAllowed :
      (db db'' : Database) (r : Option (Database × Option Device))
      → resolve_device db ip now ≡ r
      → decide_resolved π resolver now ip hostname path r ≡ some (db'', true)
      → (db' : Database) × IsAllowed db db'
  unfolding decide_resolved decide_device
  decide_resolved-IsAllowed db db'' none e h = absurd (ground arith)
  decide_resolved-IsAllowed db db'' (some (db', none)) e h = absurd (ground arith)
  decide_resolved-IsAllowed db db'' (some (db', some dev)) e h =
      let q = ap (λ (z : Database × Bool). z.1) (some_inj h) in
      elim (Option-cases (find_domain π db' hostname)) [
        | inl f ↦ (db', (dev, e, inl f))
        | inr (d, f) ↦ (
          db',
          (
            dev,
            e,
            inr (
              d,
              f,
              decide_mode-IsPermitted db' dev d _ d.mode _ refl (
                  subst (λ z. (decide_device π resolver now ip hostname path db' dev z).1 ≡ true) f
                    q),
            ),
          ),
        )
      ]

-- A request is allowed only inside the configured network, from a device found for the address,
-- and for a domain that is unconfigured or trusted, or that is for everyone or linked to the device,
-- its user or its group. Of a decrypted generic domain moreover only if its path is allowed; of a decrypted
-- Crunchyroll domain only for a known user, and by the kind of the URL: catalogue metadata without
-- a further check, an ordinary page with an allowed path, a page that names series if the user has
-- all of them, a video if each object has a resolved series that the user has, and never a URL of
-- a blocked shape.
pub decide-IsAllowed :
    (π : Platform) (resolver : Resolver) (db db'' : Database) (now : ℕ)
    (client_ip dst path : String)
    → decide π resolver db now client_ip dst path ≡ some (db'', true)
    → (ip_in_configured_lan π db client_ip ≡ true)
      × ((db' : Database) × IsAllowed π resolver now client_ip
            (split_host_port dst)
            (root_of path)
            db
            db')
unfolding decide decide_host decided
decide-IsAllowed π resolver db db'' now ip dst path h =
    elim (Bool-cases (ip_in_configured_lan π db ip)) [
      | inl k ↦ (
        k,
        decide_resolved-IsAllowed π resolver now ip (split_host_port dst) (root_of path) db db'' _
            refl (rw (decide, decide_host, k) at h),
      )
      | inr k ↦ absurd (
          let q = ap (λ (z : Database × Bool). z.1) (some_inj (rw (decide, decide_host, k) at h)) in
          ground arith)
    ]

-- The series of a series page or a continue-watching feed are allowed if and only if the user has
-- every one, whatever the loop logs.
pub check_shows-every :
    (now : ℕ) (user : User) (hostname ip path : String) (ids : List String) (db : Database)
    → (check_shows now user hostname ip path db ids).1 ≡ every (user_has_show db user.id) ids
unfolding check_shows every log_show user_has_show
check_shows-every now user hostname ip path [] db = refl
check_shows-every now user hostname ip path (i ∷ ids) db =
    let ok = user_has_show db user.id i in
    let db' = log_show now user hostname ip path db ok (some i) in
    let same = λ (shows : List UserShow). λ (s : String).
      any (λ (u : UserShow). u.user_id == user.id && u.series_id == upper s) shows in
    ap (λ z. ok && z)
      (check_shows-every now user hostname ip path ids db'
        ∙ ap (λ shows. every (same shows) ids) (log_access-user_shows db now _))
