-- ===== src/Identity/Healing.antt =====
-- common/device_identity.py, lines 63 to 146: a device is found for an address, the same one each
-- time.
use opti_gate.Base.{ℕ, String, none, some, Bool, true, false, List, [], ◌∷◌, ◌++◌, map}
use opti_gate.Base.{◌==◌, nat_eq, string_eq, find?, first_where}
use opti_gate.Base.{◌≡◌, refl, inl, inr, arith, Option-cases, In, ◌<◌, In-map}
use opti_gate.Base.{first_where-some, first_where-none, IsOrder, beq_refl, is_some-eq}
use opti_gate.Tables.{Database, Binding, Device, device_by_id, join_device}
use opti_gate.Identity.Events.{next_id}
use opti_gate.Identity.Bindings.{holds_ip, pending_device}
use opti_gate.Identity.Resolve.{newest_first, is_owned, owner_of_ip}

pub newest_first-IsOrder : IsOrder newest_first
newest_first-IsOrder = record { total = λ a b h. ground arith; trans = λ a b c h k. ground arith }

next_id-bound : (i : ℕ) (ids : List ℕ) → In i ids → i < next_id ids
unfolding next_id
next_id-bound i [] m = absurd m
next_id-bound i (x ∷ ids) (inl e) = rw e (ground arith)
next_id-bound i (x ∷ ids) (inr r) = ground (arith, next_id-bound i ids r)

find?-last :
    (p : Device → Bool) (ds : List Device) (n : Device)
    → ((d : Device) → In d ds → p d ≡ false)
    → p n ≡ true
    → find? p (ds ++ (n ∷ [])) ≡ some n
unfolding find?
find?-last p [] n h k = rw k refl
find?-last p (d ∷ ds) n h k = rw (h d (inl refl)) (find?-last p ds n (λ e m. h e (inr m)) k)

-- The device that is made has an id that no device had.
pub device_by_id-made :
    (ds : List Device) (mac : String) (now : ℕ)
    → let i = next_id (map (λ (d : Device). d.id) ds) in
      device_by_id (ds ++ (pending_device i mac now ∷ [])) i ≡ some (pending_device i mac now)
unfolding device_by_id pending_device
device_by_id-made ds mac now =
    let i = next_id (map (λ (d : Device). d.id) ds) in
    find?-last (λ (d : Device). d.id == i) ds (pending_device i mac now)
      (λ d m.
        let b : d.id < i = next_id-bound d.id _ (In-map (λ (z : Device). z.id) d ds m) in
        ground arith)
      (beq_refl i)

-- FOREIGN KEY: a binding's device is there.
abbrev pub HasOwners : Database → Type 0
HasOwners db =
    (b : Binding) (i : ℕ)
    → In b db.device_bindings
    → b.device_id ≡ some i
    → (d : Device) × (device_by_id db.devices i ≡ some d)

pub is_owned-fields :
    (db : Database) (ip : String) (b : Binding)
    → is_owned db ip b ≡ true
    → (d : Device) × (holds_ip ip b ≡ true) × (join_device db.devices b.device_id ≡ some d)
unfolding is_owned
is_owned-fields db ip b h =
    let (d, e) = is_some-eq (join_device db.devices b.device_id) (ground arith) in
    (d, ground arith, e)

pub fields-is_owned :
    (db : Database) (ip : String) (b : Binding) (d : Device)
    → holds_ip ip b ≡ true
    → join_device db.devices b.device_id ≡ some d
    → is_owned db ip b ≡ true
unfolding is_owned
fields-is_owned db ip b d h e = rw (h, e) refl

-- The owner is the device of an active binding of the address.
pub owner_of_ip-some :
    (db : Database) (ip : String) (d : Device)
    → owner_of_ip db ip ≡ some d
    → (b : Binding) × In b db.device_bindings
      × (holds_ip ip b ≡ true)
      × (join_device db.devices b.device_id ≡ some d)
unfolding owner_of_ip
owner_of_ip-some db ip d h =
    elim (Option-cases (first_where newest_first (is_owned db ip) db.device_bindings)) [
      | inl e ↦ absurd (let q = rw (owner_of_ip, e) at h in ground arith)
      | inr (b, e) ↦
          let (m, k, f) =
            first_where-some newest_first newest_first-IsOrder (is_owned db ip) b db.device_bindings
              e in
          (b, m, (is_owned-fields db ip b k).1, rw (owner_of_ip, e) at h)
    ]

pub owner_of_ip-none :
    (db : Database) (ip : String)
    → owner_of_ip db ip ≡ none
    → (b : Binding) → In b db.device_bindings
    → is_owned db ip b ≡ false
unfolding owner_of_ip
owner_of_ip-none db ip h b m =
    elim (Option-cases (first_where newest_first (is_owned db ip) db.device_bindings)) [
      | inl e ↦
          first_where-none newest_first newest_first-IsOrder (is_owned db ip) b db.device_bindings e
            m
      | inr (c, e) ↦
          let (n, k, f) =
            first_where-some newest_first newest_first-IsOrder (is_owned db ip) c db.device_bindings
              e in
          let (d, g, j) = is_owned-fields db ip c k in
          absurd (let q = rw (owner_of_ip, e, j) at h in ground arith)
    ]

-- An address that a binding owned has an owner, and where all owners agree it is theirs.
pub owner_of_ip_unique :
    (db : Database) (ip : String) (b : Binding) (d : Device)
    → In b db.device_bindings
    → is_owned db ip b ≡ true
    → ((c : Binding)
        → In c db.device_bindings
        → is_owned db ip c ≡ true
        → join_device db.devices c.device_id ≡ some d)
    → owner_of_ip db ip ≡ some d
unfolding owner_of_ip
owner_of_ip_unique db ip b d m k h =
    elim (Option-cases (first_where newest_first (is_owned db ip) db.device_bindings)) [
      | inl e ↦ absurd (
          let q =
            first_where-none newest_first newest_first-IsOrder (is_owned db ip) b db.device_bindings
              e m in
          ground arith)
      | inr (c, e) ↦
          let (n, j, f) =
            first_where-some newest_first newest_first-IsOrder (is_owned db ip) c db.device_bindings
              e in
          rw (owner_of_ip, e) (h c n j)
    ]
