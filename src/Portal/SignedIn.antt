-- ===== src/Portal/SignedIn.antt =====
-- Portal/Login: who gets signed in.
use opti_gate.Base.{ℕ, String, Option, none, some, Bool, true, false}
use opti_gate.Base.{◌≡◌, refl, sym, ap, ◌∙◌, some_inj, subst, Bool-cases, Option-cases, inl, inr}
use opti_gate.Base.{none-some, pair_inj, false-true, update_where, is_empty, ◌||◌, ◌&&◌}
use opti_gate.Tables.{Database, Device, User}
use opti_gate.Identity.Resolve.{resolve_device}
use opti_gate.Identity.Events.{log_event}
use opti_gate.RateLimit.{is_limited}
use opti_gate.Portal.Password.{Pbkdf2, verify_password}
use opti_gate.Portal.Login.{Page, signed_in, Portal, needs_label, is_valid_device, is_device}
use opti_gate.Portal.Login.{update_device, user_named, authenticated, sign_in, after_credentials}
use opti_gate.Portal.Login.{checked, login_device, handle_login}

-- Only `signed_in` is the page after a login.
is_signed_in : Page → Bool
is_signed_in (signed_in b) = true
is_signed_in page = false

other_page :
    {A : Type 0} {x y : A} {page : Page} (b : Bool)
    → ◌≡◌ {A = Option (A × Page)} (some (x, page)) (some (y, signed_in b))
    → is_signed_in page ≡ true
unfolding is_signed_in
other_page b h = ap is_signed_in (pair_inj h).1

module _ (pbkdf2 : Pbkdf2) (repr : String → String) (now : ℕ) (client_ip : String) where
  -- The device and the user of a login, and the devices after it.
  abbrev pub IsSignIn : Portal → Database → (username password label : String) → Portal → Type 0
  IsSignIn p db username password label q =
      (d : Device) × (u : User) × (resolve_device p.db client_ip now ≡ some (db, some d))
      × (user_named db.users username ≡ some u)
      × (verify_password pbkdf2 password u.password_hash ≡ some true)
      × ((needs_label d && is_empty label) ≡ false)
      × (is_valid_device (authenticated u label d) ≡ true)
      × (q.db.devices ≡ update_where (is_device d.id) (authenticated u label) db.devices)

  checked-some :
      (password : String) (o : Option User) (u : User)
      → checked pbkdf2 repr now client_ip password o ≡ some (some u)
      → (o ≡ some u) × (verify_password pbkdf2 password u.password_hash ≡ some true)
  unfolding checked
  checked-some password none u h = cc
  checked-some password (some v) u h =
      elim (Option-cases (verify_password pbkdf2 password v.password_hash)) [
        | inl e ↦ absurd (none-some (rw e at h))
        | inr (true, e) ↦
            let same = some_inj (rw e at h) in
            (
              same,
              subst (λ z. verify_password pbkdf2 password z.password_hash ≡ some true)
                  (some_inj same) e,
            )
        | inr (false, e) ↦ absurd (none-some (some_inj (rw e at h)))
      ]

  -- A device that is let online has been given the user's right name and password.
  module _ (p : Portal) (username password label : String) (b : Bool) (q : Portal) where
    sign_in-signed_in :
        (r : Portal) (d : Device) (u : User)
        → sign_in pbkdf2 repr now client_ip r d u username label ≡ some (q, signed_in b)
        → (is_valid_device (authenticated u label d) ≡ true)
          × (q.db.devices ≡ update_where (is_device d.id) (authenticated u label) r.db.devices)
    unfolding sign_in update_device log_event
    sign_in-signed_in r d u h = elim (Bool-cases (is_valid_device (authenticated u label d))) [
      | inl e ↦ (e, sym (ap (λ (z : Portal). z.db.devices) (pair_inj (rw e at h)).0))
      | inr e ↦ absurd (none-some (rw e at h))
    ]

    after_credentials-signed_in :
        (r : Portal) (d : Device) (o : Option User)
        → after_credentials pbkdf2 repr now client_ip r d username label o ≡ some (q, signed_in b)
        → (u : User) × (o ≡ some u)
          × ((needs_label d && is_empty label) ≡ false)
          × (is_valid_device (authenticated u label d) ≡ true)
          × (q.db.devices ≡ update_where (is_device d.id) (authenticated u label) r.db.devices)
    unfolding after_credentials is_signed_in
    after_credentials-signed_in r d none h = absurd (false-true (other_page b h))
    after_credentials-signed_in r d (some u) h =
        elim (Bool-cases (needs_label d && is_empty label)) [
          | inl e ↦ absurd (false-true (other_page b (rw e at h)))
          | inr e ↦
              let (valid, moved) = sign_in-signed_in r d u (rw e at h) in (u, refl, e, valid, moved)
        ]

    login_device-signed_in :
        (db : Database) (r : Portal) (o : Option Device)
        → r.db ≡ db
        → resolve_device p.db client_ip now ≡ some (db, o)
        → login_device pbkdf2 repr now client_ip r username password label o ≡ some (q, signed_in b)
        → IsSignIn p db username password label q
    unfolding login_device is_signed_in
    login_device-signed_in db r none same h k = absurd (false-true (other_page b k))
    login_device-signed_in db r (some d) same h k =
        elim (Bool-cases (is_empty username || is_empty password)) [
          | inl e ↦ absurd (false-true (other_page b (rw e at k)))
          | inr e ↦
              elim (Option-cases
                (checked pbkdf2 repr now client_ip password (user_named r.db.users username))) [
                  | inl c ↦ absurd (none-some (rw c at (rw e at k)))
                  | inr (o, c) ↦
                      let (u, same_user, named, valid, moved) =
                        after_credentials-signed_in r d o (rw c at (rw e at k)) in
                      let (found, right) = checked-some password _ u (c ∙ ap some same_user) in
                      (
                        d,
                        u,
                        h,
                        subst (λ z. user_named z.users username ≡ some u) same found,
                        right,
                        named,
                        valid,
                        subst
                            (λ z.
                              q.db.devices
                              ≡ update_where (is_device d.id) (authenticated u label) z.devices)
                            same moved,
                      )
                ]
        ]

    -- A login that ends in the page of a success was not rate limited; the address has a device and
    -- the name has a user; the password verifies against the hash of that user; the device has a
    -- name or is given one; and of the devices as the lookup left them only this one is changed: it
    -- is authenticated, and its user and its name are filled in where they were missing.
    pub handle_login-signed_in :
        handle_login pbkdf2 repr now client_ip p username password label ≡ some (q, signed_in b)
        → ((is_limited p.limiter now client_ip).1 ≡ false)
          × ((db : Database) × IsSignIn p db username password label q)
    unfolding handle_login is_signed_in
    handle_login-signed_in h = elim (Bool-cases (is_limited p.limiter now client_ip).1) [
      | inl e ↦ absurd (false-true (other_page b (rw e at h)))
      | inr e ↦ elim (Option-cases (resolve_device p.db client_ip now)) [
        | inl k ↦ absurd (none-some (rw k at (rw e at h)))
        | inr ((db, o), k) ↦ (e, (db, login_device-signed_in db _ o refl k (rw k at (rw e at h))))
      ]
    ]
