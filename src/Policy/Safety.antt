-- ===== src/Policy/Safety.antt =====
-- What the packet filter may rely on: no address in two classes, bump only over authenticated
-- access, lockouts that no flag undoes, and bypass that no lockout touches.
use opti_gate.Base.{ℕ, String, none, some, true, false, if◌then◌else◌, ◌==◌}
use opti_gate.Base.{List, [], ◌∷◌, In, ◌≡◌, refl, sym, ◌≢◌, ◌∙◌, ap, subst}
use opti_gate.Base.{arith, map-In, In-map, filter-In, In-filter, some_inj}
use opti_gate.Base.{str_leb, sort_by-IsSorted, IsSorted, str_leb-IsOrder, eq_of_beq}
use opti_gate.Tables.{Database, Binding, PolicyRow}
use opti_gate.Platform.{Platform}
use opti_gate.Schedule.Lockout.{is_full_lockout_active}
use opti_gate.Schedule.Effect.{Parses, is_full_lockout_active_iff}
use opti_gate.Policy.Class.{PolicyClass, authenticated, preauth, bypass, quarantine, class_eq}
use opti_gate.Policy.Class.{classify_device}
use opti_gate.Policy.Sets.{PolicySets, policy_row, policy_rows, overlaid_class, is_bumped, fill}
use opti_gate.Policy.Sets.{compute_desired_policy, empty_sets, sort_sets}
use opti_gate.Tables.{null_row, HasUniqueAddresses}
use opti_gate.Policy.Partition.{
  SetName, of_class, bump, turn, members-sort_sets, members, is_added,
  compute_desired_policy-HasRow,
}

module _ (π : Platform) (db : Database) (now : ℕ) (p : PolicySets)
    (computed : compute_desired_policy π db now ≡ some p) where
  row_of_binding :
      (row : PolicyRow)
      → In row (policy_rows db)
      → (b : Binding) × In b db.device_bindings × (b.active ≡ true) × (row ≡ policy_row db b)
  unfolding policy_rows
  row_of_binding row m =
      let (b, i, e) = map-In (policy_row db) row _ m in
      let (i', a) = filter-In (λ (b : Binding). b.active) b db.device_bindings i in (b, i', a, e)

  pub row_of_ip :
      (name : SetName) (ip : String)
      → In ip (members name p)
      → (b : Binding) × (c : PolicyClass) × In b db.device_bindings
        × (b.active ≡ true)
        × (b.ipv4_address ≡ ip)
        × (overlaid_class π db now (policy_row db b) ≡ some c)
        × (is_added name (policy_row db b) c ≡ true)
  unfolding policy_row
  row_of_ip name ip m =
      let (r, c, i, o, a, e) = (compute_desired_policy-HasRow π db now p computed name ip).0 m in
      let (b, ib, ab, q) = row_of_binding r i in
      (
        b,
        c,
        ib,
        ab,
        ap (λ (z : PolicyRow). z.ipv4_address) (sym q) ∙ e,
        subst (λ z. overlaid_class π db now z ≡ some c) q o,
        subst (λ z. is_added name z c ≡ true) q a,
      )

  pub ip_of_row :
      (name : SetName) (b : Binding) (c : PolicyClass)
      → In b db.device_bindings
      → b.active ≡ true
      → overlaid_class π db now (policy_row db b) ≡ some c
      → is_added name (policy_row db b) c ≡ true
      → In b.ipv4_address (members name p)
  unfolding policy_rows
  ip_of_row name b c i a o e =
      (compute_desired_policy-HasRow π db now p computed name b.ipv4_address).1 (
        policy_row db b,
        c,
        In-map (policy_row db) b _ (In-filter (λ (b : Binding). b.active) b db.device_bindings i a),
        o,
        e,
        unfold policy_row in refl,
      )

  -- Where no two active bindings hold one address, no address stands in the sets of two classes.
  pub compute_desired_policy_disjoint :
      HasUniqueAddresses db
      → (c d : PolicyClass) (ip : String) → c ≢ d
      → In ip (members (of_class c) p)
      → ¬ In ip (members (of_class d) p)
  compute_desired_policy_disjoint unique c d ip other mc md =
      let (b, c', i, a, e, o, k) = row_of_ip (of_class c) ip mc in
      let (b', d', i', a', e', o', k') = row_of_ip (of_class d) ip md in
      let same = unique b b' i i' a a' (e ∙ sym e') in
      let classes : some c' ≡ some d' =
        sym o ∙ ap (λ z. overlaid_class π db now (policy_row db z)) same ∙ o' in
      other (sym (eq_of_beq c' c k) ∙ some_inj classes ∙ eq_of_beq d' d k')

  -- An address in the bump set is in the authenticated set.
  pub compute_desired_policy_bump : (ip : String) → In ip p.bump → In ip p.authenticated
  unfolding is_bumped
  compute_desired_policy_bump ip m =
      let (b, c, i, a, e, o, k) = row_of_ip bump ip m in
      subst (λ z. In z p.authenticated) e
        (ip_of_row (of_class authenticated) b c i a o (ground arith))

  module _ (b : Binding) (listed : In b db.device_bindings) (active : b.active ≡ true) where
    -- The address of an active binding whose device or group is ignored is in the bypass set,
    -- whatever schedules are active and however else the device is flagged.
    pub compute_desired_policy_bypass :
        classify_device (policy_row db b).device (policy_row db b).group_ignored ≡ bypass
        → In b.ipv4_address p.bypass
    unfolding overlaid_class
    compute_desired_policy_bypass h = ip_of_row (of_class bypass) b bypass listed active (rw h) refl

    -- A binding whose device is gone still has its address in a set: that of devices that have
    -- not logged in, unless a full lockout is active for a device without identity.
    pub compute_desired_policy_orphan :
        b.device_id ≡ none
        → is_full_lockout_active π db now null_row ≡ some false
        → In b.ipv4_address p.unauthenticated
    unfolding overlaid_class policy_row classify_device
    compute_desired_policy_orphan h l =
        ip_of_row (of_class preauth) b preauth listed active (rw h (ground arith)) refl

module _ (π : Platform) (db : Database) (now : ℕ) (parses : Parses π db now) where
  overlaid_class_total :
      (row : PolicyRow) → (c : PolicyClass) × (overlaid_class π db now row ≡ some c)
  unfolding overlaid_class
  overlaid_class_total row =
      let (b, e) = (is_full_lockout_active_iff π db now parses row.device).0 in
      (
        if classify_device row.device row.group_ignored == bypass
            then bypass
            else if b
            then quarantine
            else classify_device row.device row.group_ignored,
        ground arith,
      )

  fill_total :
      (rows : List PolicyRow) (p : PolicySets) → (q : PolicySets) × (fill π db now rows p ≡ some q)
  unfolding fill
  fill_total [] p = (p, refl)
  fill_total (row ∷ rows) p =
      let (c, e) = overlaid_class_total row in
      let (q, k) = fill_total rows (turn row c p) in (q, rw e k)

  -- Where every schedule parses, a policy is computed, and each of its lists is in text order.
  pub compute_desired_policy_total :
      (p : PolicySets) × (compute_desired_policy π db now ≡ some p)
      × ((name : SetName) → IsSorted str_leb (members name p))
  unfolding compute_desired_policy
  compute_desired_policy_total =
      let (q, e) = fill_total (policy_rows db) empty_sets in
      (
        sort_sets q,
        rw e,
        λ name. rw members-sort_sets (sort_by-IsSorted str_leb str_leb-IsOrder (members name q)),
      )
