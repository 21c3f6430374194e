-- ===== src/Poisoning/Reconcile.antt =====
-- controller/reconcile.py: the next generation to send, or none where the worker has this state.
use opti_gate.Base.{ℕ, Option, none, some, Bool, true, ◌&&◌, ◌==◌, ◌+◌}
use opti_gate.Base.{
  string_eq, if◌then◌else◌, List, every, contains, every-In, In-every, contains-In, In-contains,
  bool_beq, In, subst, sym, some_inj, ◌<◌, ◌≡◌, refl, ◌↔◌, Comparable, arith,
}
use opti_gate.Poisoning.Targets.{Target, DesiredState}

abbrev pub target_beq : Target → Target → Bool
target_beq a b = (a.ip == b.ip) && (a.mac == b.mac)

pub target_beq_iff : (a b : Target) → (target_beq a b ≡ true) ↔ (a ≡ b)
target_beq_iff a b = ground (arith, string_eq.same_iff a.ip b.ip, string_eq.same_iff a.mac b.mac)

instance abbrev pub target_eq : Comparable Target
target_eq = record { same = target_beq; same_iff = target_beq_iff }

-- controller/reconcile.py: AppliedState
pub record AppliedState : Type 0 where
  pub generation : ℕ
  pub desired : DesiredState

-- Equality of the frozen sets of two target lists (`target_key`).
unfoldable pub same_targets : List Target → List Target → Bool
unfolding every contains
same_targets a b = every (contains b) a && every (contains a) b

unfoldable pub reconcile : Option AppliedState → DesiredState → Option ℕ
reconcile none desired = some 1
reconcile (some current) desired =
    if (current.desired.gateway == desired.gateway)
      && (same_targets current.desired.targets desired.targets
          && bool_beq current.desired.full_duplex desired.full_duplex)
    then none
    else some (current.generation + 1)

-- Two desired states redirect the same targets the same way; the order of the targets is free.
pub record IsSameState (a b : DesiredState) : Type 0 where
  pub gateway : a.gateway ≡ b.gateway
  pub full_duplex : a.full_duplex ≡ b.full_duplex
  pub targets : (t : Target) → In t a.targets ↔ In t b.targets

same_targets_iff :
    (a b : List Target) → (same_targets a b ≡ true) ↔ ((t : Target) → In t a ↔ In t b)
unfolding same_targets
same_targets_iff a b = (
  λ h t. (
    λ m. contains-In t b (every-In (contains b) t a (ground arith) m),
    λ m. contains-In t a (every-In (contains a) t b (ground arith) m),
  ),
  λ h.
      let x = In-every (contains b) a (λ t m. In-contains t b ((h t).0 m)) in
      let y = In-every (contains a) b (λ t m. In-contains t a ((h t).1 m)) in rw (x, y),
)

-- The three comparisons of the test.
abbrev IsApplied : DesiredState → DesiredState → Type 0
IsApplied a b =
    (target_beq a.gateway b.gateway ≡ true)
    × (same_targets a.targets b.targets ≡ true)
    × (bool_beq a.full_duplex b.full_duplex ≡ true)

reconcile-tests :
    (s : AppliedState) (desired : DesiredState)
    → (reconcile (some s) desired ≡ none) ↔ IsApplied s.desired desired
unfolding reconcile
reconcile-tests s desired = ground arith

tests-IsSameState : (a b : DesiredState) → IsApplied a b ↔ IsSameState a b
tests-IsSameState a b = (
  λ (g, t, f). record {
    gateway = (target_beq_iff a.gateway b.gateway).0 g;
    full_duplex = ground arith;
    targets = (same_targets_iff a.targets b.targets).0 t;
  },
  λ r. (
    (target_beq_iff a.gateway b.gateway).1 r.gateway,
    (same_targets_iff a.targets b.targets).1 r.targets,
    rw r.full_duplex (ground arith),
  ),
)

-- Nothing is sent exactly when the worker has applied a state that redirects the same targets,
-- in whatever order, the same way.
pub reconcile-none_iff :
    (current : Option AppliedState) (desired : DesiredState)
    → (reconcile current desired ≡ none)
      ↔ ((s : AppliedState) × (current ≡ some s) × IsSameState s.desired desired)
reconcile-none_iff none desired =
    (λ h. absurd (unfold reconcile in cc h), λ (s, e, r). absurd (cc e))
reconcile-none_iff (some s) desired = (
  λ h. (s, refl, (tests-IsSameState s.desired desired).0 ((reconcile-tests s desired).0 h)),
  λ (s', e, r). (reconcile-tests s desired).1 (
      (tests-IsSameState s.desired desired).1
        (subst (λ (z : AppliedState). IsSameState z.desired desired) (sym (some_inj e)) r)),
)

-- A generation that is sent is a new one, and once the worker has applied it with the state that
-- it was made for, nothing more is sent.
pub reconcile-some :
    (current : Option AppliedState) (desired : DesiredState) (generation : ℕ)
    → reconcile current desired ≡ some generation
    → ((s : AppliedState) → current ≡ some s → s.generation < generation)
      × (reconcile (some (record { generation = generation; desired = desired })) desired ≡ none)
reconcile-some current desired generation h = (
  λ s e. newer_than s (subst (λ z. reconcile z desired ≡ some generation) e h),
  (reconcile-none_iff (some (record { generation = generation; desired = desired })) desired).1 (
    record { generation = generation; desired = desired },
    refl,
    record { gateway = refl; full_duplex = refl; targets = λ t. (λ m. m, λ m. m) },
  ),
)
  where
    newer_than :
        (s : AppliedState)
        → reconcile (some s) desired ≡ some generation
        → s.generation < generation
    newer_than s k = unfold reconcile in ground arith
