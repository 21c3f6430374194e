-- ===== src/Adguard/Gated.antt =====
-- Adguard/Categories: which devices a category blocks, by the rows of the tables.
use opti_gate.Base.{ℕ, ◌≤◌, String, List, Option, some, Bool, true, false, not}
use opti_gate.Base.{◌≡◌, refl, sym, ap, ◌∙◌, subst, inl, inr, ◌↔◌, arith, ◌==◌, nat_eq}
use opti_gate.Base.{In, map-In, In-map, filter-In, In-filter, length, filter, erase, contains}
use opti_gate.Base.{string_eq, eq_of_beq, some_inj, Bool-cases, false-true}
use opti_gate.Base.{contains-In, In-contains, length-map, ◌&&◌, map}
use opti_gate.Tables.{Database, Category, CategoryDomain, PolicyRow, DeviceRow, Schedule, has_pair}
use opti_gate.Platform.{Platform}
use opti_gate.Matching.Axes.{
  Applies, category_applies_to_device_iff, schedule_applies_to_device_iff,
}
use opti_gate.Matching.Axes.{has_pair_iff}
use opti_gate.Matching.Grants.{category_applies_to_device, schedule_applies_to_device}
use opti_gate.Schedule.Overrides.{schedule_is_active_for_device}
use opti_gate.Schedule.Effect.{any_in_effect_sound}
use opti_gate.Schedule.InForce.{IsTargetOf, any_in_effect-false}
use opti_gate.Adguard.Merge.{RuleKey}
use opti_gate.Adguard.Groups.{HasRule}
use opti_gate.Adguard.Denied.{deny_key, HasPlainAddresses}
use opti_gate.Adguard.Allowed.{IsAddressOf}
use opti_gate.Adguard.Applicable.{HasPlainCategories}
use opti_gate.Adguard.Categories.{category_patterns, overrides, category_domain_patterns}
use opti_gate.Adguard.Categories.{gating_schedules, is_scoped, category_blocks}
use opti_gate.Adguard.Categories.{build_category_deny_rules}
use opti_gate.Adguard.Answered.{build_category_deny_rules-answers}
use opti_gate.Adguard.Blocked.{build_category_deny_rules-IsBlocked}

module _ (db : Database) where
  -- The category has from 1 to 5000 domains.
  abbrev pub IsSmall : Category → Type 0
  IsSmall c =
      let n = length (filter (λ (d : CategoryDomain). d.category_id == c.id) db.category_domains) in
      (1 ≤ n) × (n ≤ 5000)

  -- The row is of the category, and no override of the category names its pattern, backslashes
  -- aside.
  abbrev pub IsListed : Category → CategoryDomain → Type 0
  IsListed c d =
      In d db.category_domains
      × (d.category_id ≡ c.id)
      × ((o : ℕ × String)
          → In o db.category_overrides
          → o.0 ≡ c.id
          → erase b'\\' o.1 ≡ erase b'\\' d.pattern
          → ⊥)

  is_scoped_iff : (c : Category) → (is_scoped db c ≡ true) ↔ IsSmall c
  unfolding is_scoped category_patterns
  is_scoped_iff c =
      let rows = filter (λ (d : CategoryDomain). d.category_id == c.id) db.category_domains in
      let same = length-map (λ (d : CategoryDomain). d.pattern) rows in
      (λ h. (ground arith, ground arith), λ (a, b). ground arith)

  overridden :
      (c : Category) (pattern : String)
      → contains (overrides db c.id) (erase b'\\' pattern) ≡ true ↔ (
          (o : ℕ × String) × In o db.category_overrides
          × (o.0 ≡ c.id)
          × (erase b'\\' o.1 ≡ erase b'\\' pattern))
  unfolding overrides
  overridden c pattern =
      let test = λ (o : ℕ × String). o.0 == c.id in
      let text = λ (o : ℕ × String). erase b'\\' o.1 in
      (
        λ h.
            let (o, i, e) = map-In text _ _ (contains-In _ _ h) in
            let (j, t) = filter-In test o db.category_overrides i in
            (o, j, eq_of_beq o.0 c.id t, sym e),
        λ (o, i, e, q). In-contains _ _ (
            subst (λ z. In z (map text (filter test db.category_overrides))) q
              (In-map text o _ (In-filter test o db.category_overrides i (ground arith)))),
      )

  category_domain_patterns-IsListed :
      (c : Category) (pattern : String)
      → In pattern (category_domain_patterns db c.id)
        ↔ ((d : CategoryDomain) × IsListed c d × (d.pattern ≡ pattern))
  unfolding category_domain_patterns category_patterns
  category_domain_patterns-IsListed c pattern =
      let kept = λ (p : String). not (contains (overrides db c.id) (erase b'\\' p)) in
      let test = λ (d : CategoryDomain). d.category_id == c.id in
      let name = λ (d : CategoryDomain). d.pattern in
      (
        λ m.
            let (i, k) = filter-In kept pattern _ m in
            let (d, j, e) = map-In name pattern _ i in
            let (l, t) = filter-In test d db.category_domains j in
            (
              d,
              (
                l,
                eq_of_beq d.category_id c.id t,
                λ o x y z.
                    let w = (overridden c pattern).1 (o, x, y, z ∙ ap (erase b'\\') (sym e)) in
                    false-true (rw w at k),
              ),
              sym e,
            ),
        λ (d, (l, t, n), e).
            subst (λ z. In z (category_domain_patterns db c.id)) e
              (In-filter kept d.pattern _
                (In-map name d _ (In-filter test d db.category_domains l (ground arith)))
                (elim (Bool-cases (contains (overrides db c.id) (erase b'\\' d.pattern))) [
                  | inl x ↦ let (o, i, y, z) = (overridden c d.pattern).0 x in absurd (n o i y z)
                  | inr x ↦ rw x refl
                ])),
      )

  module _ (π : Platform) (now : ℕ) where
    -- The category is for everyone or linked to the device, its user or its group; or a schedule
    -- that names the category, no full lockout, targets the device and is active for it.
    pub data Blocks (c : Category) (device : DeviceRow) : Type 0 where
      always :
          Applies c.is_global
            (λ u. In (c.id, u) db.category_users)
            (λ g. In (c.id, g) db.category_groups)
            (λ d. In (c.id, d) db.category_devices)
            device.user_id
            device.group_id
            device.id
          → Blocks c device
      scheduled :
          (s : Schedule)
          → In s db.schedules
          → In (s.id, c.id) db.schedule_categories
          → s.lockout_all ≡ false
          → IsTargetOf π db now device s
          → schedule_is_active_for_device db now π s device ≡ some true
          → Blocks c device

    gating_iff :
        (c : Category) (s : Schedule)
        → In s (gating_schedules db c.id)
          ↔ (In s db.schedules × In (s.id, c.id) db.schedule_categories × (s.lockout_all ≡ false))
    unfolding gating_schedules
    gating_iff c s =
        let test =
          λ (s : Schedule). has_pair db.schedule_categories s.id c.id && not s.lockout_all in
        let pair = has_pair_iff db.schedule_categories s.id c.id in
        (
          λ m.
              let (i, t) = filter-In test s db.schedules m in
              (i, pair.0 (ground arith), ground arith),
          λ (i, l, n). In-filter test s db.schedules i (let p = pair.1 l in ground arith),
        )

    category_blocks-Blocks :
        (c : Category) (row : PolicyRow)
        → category_blocks db π now c row ≡ some true
        → Blocks c row.device
    unfolding category_blocks
    category_blocks-Blocks c row h =
        let reaches = category_applies_to_device_iff db row.device c in
        elim (Bool-cases (category_applies_to_device db row.device c)) [
          | inl e ↦ always (reaches.0 e)
          | inr e ↦
              let active = λ (s : Schedule). schedule_is_active_for_device db now π s row.device in
              let applies = λ (s : Schedule). schedule_applies_to_device db row.device s in
              let (s, i, x, y) = any_in_effect_sound active applies _ (rw e at h) in
              let (j, l, n) = (gating_iff c s).0 i in
              scheduled s j l n ((schedule_applies_to_device_iff db row.device s).0 y) x
        ]

    Blocks-category_blocks :
        (c : Category) (row : PolicyRow) (b : Bool)
        → category_blocks db π now c row ≡ some b
        → Blocks c row.device
        → category_blocks db π now c row ≡ some true
    unfolding category_blocks
    Blocks-category_blocks c row true h k = h
    Blocks-category_blocks c row false h (always a) =
        let e = (category_applies_to_device_iff db row.device c).1 a in
        absurd (false-true (sym (some_inj (rw e at h))))
    Blocks-category_blocks c row false h (scheduled s j l n t x) =
        elim (Bool-cases (category_applies_to_device db row.device c)) [
          | inl e ↦ absurd (false-true (sym (some_inj (rw e at h))))
          | inr e ↦
              let active = λ (s : Schedule). schedule_is_active_for_device db now π s row.device in
              let applies = λ (s : Schedule). schedule_applies_to_device db row.device s in
              let no =
                any_in_effect-false active applies _ (rw e at h) s ((gating_iff c s).1 (j, l, n))
                  ((schedule_applies_to_device_iff db row.device s).1 t) in
              absurd (false-true (some_inj (sym no ∙ x)))
        ]

    -- The category is small enough, lists the pattern of the key, and blocks a device at the
    -- address.
    abbrev pub IsGated : List PolicyRow → Option String → Category → RuleKey → String → Type 0
    IsGated devices block_page_ip c k ip =
        IsSmall c
        × ((d : CategoryDomain) × IsListed c d × (deny_key d.pattern block_page_ip ≡ k))
        × ((row : PolicyRow) × In row devices × Blocks c row.device × (ip ≡ row.ipv4_address))

-- Where the rules of the categories are computed without an exception, one of them denies the
-- address of an eligible device under a key exactly when some category has from 1 to 5000 domains,
-- one of them makes the key and is not overridden in the category, and the category is for everyone
-- or linked to a device at the address, its user or its group, or a schedule names the category that
-- is no full lockout, targets the device and is active for it. It is assumed that no pattern has a
-- slash and no address a comma or a bar.
pub build_category_deny_rules-HasRule :
    (db : Database) (π : Platform) (now : ℕ) (devices : List PolicyRow)
    (block_page_ip : Option String) (rules : List String)
    → HasPlainCategories db
    → HasPlainAddresses devices
    → build_category_deny_rules db π now block_page_ip devices ≡ some rules
    → (k : RuleKey) (ip : String) → IsAddressOf devices ip
    → HasRule rules k ip
      ↔ ((c : Category) × In c db.categories × IsGated db π now devices block_page_ip c k ip)
build_category_deny_rules-HasRule db π now devices block_page_ip rules patterns plain h k ip known =
    let (f, g) =
      build_category_deny_rules-IsBlocked db π now devices block_page_ip rules patterns plain h k ip
        known in
    (
      λ m.
          let (c, i, (t, (pattern, p, q), (row, j, b, e))) = f m in
          let (d, l, same) = (category_domain_patterns-IsListed db c pattern).0 p in
          (
            c,
            i,
            (
              (is_scoped_iff db c).0 t,
              (d, l, subst (λ z. deny_key z block_page_ip ≡ k) (sym same) q),
              (row, j, category_blocks-Blocks db π now c row b, e),
            ),
          ),
      λ (c, i, (small, (d, l, q), (row, j, x, e))).
          let t = (is_scoped_iff db c).1 small in
          let p = (category_domain_patterns-IsListed db c d.pattern).1 (d, l, refl) in
          let (b, a) =
            build_category_deny_rules-answers db π now block_page_ip devices rules h c i t d.pattern
              p row j in
          g (
            c,
            i,
            (t, (d.pattern, p, q), (row, j, Blocks-category_blocks db π now c row b a x, e)),
          ),
    )
