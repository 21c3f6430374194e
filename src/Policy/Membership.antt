-- ===== src/Policy/Membership.antt =====
-- controller/policy_state.py: who stands in the five address sets, by the columns of the rows.
use opti_gate.Base.{ℕ, String, some, Bool, true, false, is_some, ◌||◌, ◌==◌}
use opti_gate.Base.{In, ◌≡◌, refl, ◌↔◌, inl, inr, arith, Bool-cases}
use opti_gate.Base.{some_inj, subst, eq_of_beq, >>=-eq-some, if◌then◌else◌}
use opti_gate.Tables.{Database, Binding, PolicyRow, DeviceRow, truthy}
use opti_gate.Platform.{Platform}
use opti_gate.Schedule.Lockout.{is_full_lockout_active}
use opti_gate.Policy.Class.{PolicyClass, authenticated, preauth, bypass, quarantine, class_eq}
use opti_gate.Policy.Class.{classify_device, bump_eligible}
use opti_gate.Policy.Sets.{PolicySets, policy_row, overlaid_class, is_bumped}
use opti_gate.Policy.Sets.{compute_desired_policy}
use opti_gate.Policy.Partition.{SetName, of_class, bump, members, is_added}
use opti_gate.Policy.Safety.{row_of_ip, ip_of_row}

module _ (π : Platform) (db : Database) (now : ℕ) (d : DeviceRow) (group_ignored : Bool) where
  -- The set of a device by its columns, its group's flag and whether a full lockout is in force.
  pub data Belongs : SetName → Type 0 where
    exempt : (truthy d.ignored || group_ignored) ≡ true → Belongs (of_class bypass)
    locked_out :
        (truthy d.ignored || group_ignored) ≡ false
        → is_full_lockout_active π db now d ≡ some true
        → Belongs (of_class quarantine)
    held :
        (truthy d.ignored || group_ignored) ≡ false
        → is_full_lockout_active π db now d ≡ some false
        → is_some d.quarantined_at ≡ true
        → Belongs (of_class quarantine)
    admitted :
        (truthy d.ignored || group_ignored) ≡ false
        → is_full_lockout_active π db now d ≡ some false
        → is_some d.quarantined_at ≡ false
        → (truthy d.is_authenticated || truthy d.bypass_login) ≡ true
        → Belongs (of_class authenticated)
    waiting :
        (truthy d.ignored || group_ignored) ≡ false
        → is_full_lockout_active π db now d ≡ some false
        → is_some d.quarantined_at ≡ false
        → (truthy d.is_authenticated || truthy d.bypass_login) ≡ false
        → Belongs (of_class preauth)
    decrypted :
        (truthy d.ignored || group_ignored) ≡ false
        → is_full_lockout_active π db now d ≡ some false
        → is_some d.quarantined_at ≡ false
        → (truthy d.is_authenticated || truthy d.bypass_login) ≡ true
        → truthy d.bump_enabled ≡ true
        → Belongs bump

module _ (π : Platform) (db : Database) (now : ℕ) (row : PolicyRow) where
  abbrev pub BelongsTo : SetName → Type 0
  BelongsTo = Belongs π db now row.device row.group_ignored

  -- What a row that is not exempt is before the overlay.
  not_exempt :
      (truthy row.device.ignored || row.group_ignored) ≡ false
      → (classify_device row.device row.group_ignored == bypass) ≡ false
  unfolding classify_device
  not_exempt e = ground arith

  overlaid :
      (c : PolicyClass)
      → (truthy row.device.ignored || row.group_ignored) ≡ false
      → overlaid_class π db now row ≡ some c
      → (locked : Bool) × (is_full_lockout_active π db now row.device ≡ some locked)
        × ((if locked then quarantine else classify_device row.device row.group_ignored) ≡ c)
  unfolding overlaid_class
  overlaid c e h =
      let (locked, k, l) =
        >>=-eq-some (is_full_lockout_active π db now row.device) _ (rw (not_exempt e) at h) in
      (locked, k, some_inj l)

  unlocked-Belongs :
      (truthy row.device.ignored || row.group_ignored) ≡ false
      → is_full_lockout_active π db now row.device ≡ some false
      → BelongsTo (of_class (classify_device row.device row.group_ignored))
  unfolding classify_device
  unlocked-Belongs e k = elim (Bool-cases (is_some row.device.quarantined_at)) [
    | inl q ↦ rw (e, q) (held e k q)
    | inr q ↦
        elim (Bool-cases (truthy row.device.is_authenticated || truthy row.device.bypass_login)) [
          | inl a ↦ rw (e, q, a) (admitted e k q a)
          | inr a ↦ rw (e, q, a) (waiting e k q a)
        ]
  ]

  locked-Belongs :
      (c : PolicyClass)
      → (truthy row.device.ignored || row.group_ignored) ≡ false
      → (locked : Bool) → is_full_lockout_active π db now row.device ≡ some locked
      → (if locked then quarantine else classify_device row.device row.group_ignored) ≡ c
      → BelongsTo (of_class c)
  locked-Belongs c e true k l = subst (λ z. BelongsTo (of_class z)) l (locked_out e k)
  locked-Belongs c e false k l = subst (λ z. BelongsTo (of_class z)) l (unlocked-Belongs e k)

  overlaid_class-Belongs :
      (c : PolicyClass) → overlaid_class π db now row ≡ some c → BelongsTo (of_class c)
  unfolding overlaid_class classify_device
  overlaid_class-Belongs c h = elim (Bool-cases (truthy row.device.ignored || row.group_ignored)) [
    | inl e ↦ subst (λ z. BelongsTo (of_class z)) (some_inj (rw e at h)) (exempt e)
    | inr e ↦ let (locked, k, l) = overlaid c e h in locked-Belongs c e locked k l
  ]

  admitted-decrypted :
      BelongsTo (of_class authenticated) → truthy row.device.bump_enabled ≡ true → BelongsTo bump
  admitted-decrypted (admitted e k q a) b = decrypted e k q a b

  -- A row is added to the set that it belongs to, and to no other.
  is_added-Belongs :
      (name : SetName) (c : PolicyClass)
      → overlaid_class π db now row ≡ some c
      → is_added name row c ≡ true
      → BelongsTo name
  unfolding is_bumped bump_eligible
  is_added-Belongs (of_class d) c h a =
      subst (λ z. BelongsTo (of_class z)) (eq_of_beq c d a) (overlaid_class-Belongs c h)
  is_added-Belongs bump c h a =
      let same : c ≡ authenticated = eq_of_beq c authenticated (ground arith) in
      admitted-decrypted (subst (λ z. BelongsTo (of_class z)) same (overlaid_class-Belongs c h))
        (ground arith)

  Belongs-is_added :
      (name : SetName)
      → BelongsTo name
      → (c : PolicyClass) × (overlaid_class π db now row ≡ some c) × (is_added name row c ≡ true)
  unfolding overlaid_class classify_device is_bumped bump_eligible
  Belongs-is_added _ (exempt e) = (bypass, ground arith, refl)
  Belongs-is_added _ (locked_out e k) = (quarantine, rw (not_exempt e, k) refl, refl)
  Belongs-is_added _ (held e k q) = (quarantine, ground arith, refl)
  Belongs-is_added _ (admitted e k q a) = (authenticated, ground arith, refl)
  Belongs-is_added _ (waiting e k q a) = (preauth, ground arith, refl)
  Belongs-is_added _ (decrypted e k q a b) = (authenticated, ground arith, ground arith)

module _ (π : Platform) (db : Database) (now : ℕ) (p : PolicySets)
    (computed : compute_desired_policy π db now ≡ some p) where
  -- An address stands in a set of the computed policy exactly when an active binding has it whose
  -- device belongs there: in bypass if the device or its group is ignored; of the others, in
  -- quarantine under a full lockout or if the device is quarantined, and without these among the
  -- authenticated if it is authenticated or bypasses the login, moreover in bump if bump is enabled
  -- for it, and else among the unauthenticated.
  pub compute_desired_policy_iff :
      (name : SetName) (ip : String)
      → In ip (members name p) ↔ (
          (b : Binding) × In b db.device_bindings
          × (b.active ≡ true)
          × (b.ipv4_address ≡ ip)
          × BelongsTo π db now (policy_row db b) name)
  compute_desired_policy_iff name ip = (
    λ m.
        let (b, c, i, a, e, o, k) = row_of_ip π db now p computed name ip m in
        (b, i, a, e, is_added-Belongs π db now (policy_row db b) name c o k),
    λ (b, i, a, e, m).
        let (c, o, k) = Belongs-is_added π db now (policy_row db b) name m in
        subst (λ z. In z (members name p)) e (ip_of_row π db now p computed name b c i a o k),
  )
