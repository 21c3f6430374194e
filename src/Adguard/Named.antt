-- ===== src/Adguard/Named.antt =====
-- common/optigate_rewrite.py and the SafeSearch switch: what a run that came to an end leaves.
use opti_gate.Base.{String, Option, some, Bool, true, false}
use opti_gate.Base.{◌≡◌, refl, sym, ap, ◌∙◌, subst, inl, inr, ◌↔◌, if◌then◌else◌, Bool-cases}
use opti_gate.Base.{In, In-filter, filter-In, filter, ends_with, is_empty, arith}
use opti_gate.Base.{string_eq, beq_refl, bool_beq}
use opti_gate.Base.{ℕ, ◌<>◌, Option-cases}
use opti_gate.Tables.{Database}
use opti_gate.Platform.{Platform}
use opti_gate.Settings.{optigate_hostname, get_setting}
use opti_gate.Adguard.Client.{ask, AdguardClient}
use opti_gate.Adguard.Client.{AdguardHome, IsDocumented, Rewrite, SafeSearch, is_rewrite}
use opti_gate.Adguard.Keeps.{after-inv}
use opti_gate.Adguard.Rewrites.{ours, reconcile_rewrites, sync_optigate_rewrite}
use opti_gate.Adguard.Sync.{safesearch_wanted, switch_safesearch, sync_safesearch}
use opti_gate.Adguard.Reconciled.{is_rewrite-eq, is_rewrite_refl, wanted-In, origin, survives}

ends_with-append : (a b : String) → ends_with (a <> b) b ≡ true
unfolding ends_with
ends_with-append String.[] String.[] = refl
ends_with-append String.[] (String.◌∷◌ c b) = ground (arith, beq_refl (String.◌∷◌ c b))
ends_with-append (String.◌∷◌ c a) b = ground (arith, ends_with-append a b)

optigate_hostname-ends_with : (db : Database) → ends_with (optigate_hostname db) ".home" ≡ true
unfolding optigate_hostname
optigate_hostname-ends_with db =
    elim (Option-cases (get_setting db "optigate_hostname_prefix" (some "optigate"))) [
      | inl e ↦ rw (optigate_hostname, e) (ends_with-append "optigate" ".home")
      | inr (p, e) ↦
          rw (optigate_hostname, e)
            (ends_with-append (if is_empty p then "optigate" else p) ".home")
    ]

-- A run with an address to point to that comes to an end leaves the rewrite of the program's host
-- name to that address, no other rewrite of a name that ends in ".home", and every rewrite of
-- another name as it was. It is assumed that the server does what its interface documents.
pub sync_optigate_rewrite-rewrites :
    {S : Type 0} (α : AdguardClient S) (home : S → AdguardHome)
    → IsDocumented α home
    → (db : Database) (ip : String) (s t : S) → is_empty ip ≡ false
    → sync_optigate_rewrite α db (some ip) s ≡ (t, some tt)
    → In (record { domain = optigate_hostname db; answer = ip }) (home t).rewrites
      × ((r : Rewrite)
          → In r (home t).rewrites
          → ends_with r.domain ".home" ≡ true
          → (r.domain ≡ optigate_hostname db) × (r.answer ≡ ip))
      × ((r : Rewrite)
          → ends_with r.domain ".home" ≡ false
          → In r (home t).rewrites ↔ In r (home s).rewrites)
unfolding sync_optigate_rewrite ours
sync_optigate_rewrite-rewrites α home law db ip s t n h =
    let domain = optigate_hostname db in
    let managed = λ (r : Rewrite). ends_with r.domain ".home" in
    let (u, current, e, k) = after-inv (ask α.get_rewrites s) _ t tt (rw n at h) in
    let stays : u ≡ s = ap (λ x. x.0) (sym e) in
    let rows = filter managed current in
    let read = law.reads_rewrites s current (ap (λ x. x.1) e) in
    let k' = subst (λ z. reconcile_rewrites α domain ip rows z ≡ (t, some tt)) stays k in
    let listed =
      λ (r : Rewrite) (i : In r rows). subst (In r) read (filter-In managed r current i).0 in
    (
      wanted-In α home law domain ip rows s t k' listed,
      λ r m x. elim (origin α home law domain ip rows s t k' r m) [
        | inl q ↦ (ap (λ z. z.domain) q, ap (λ z. z.answer) q)
        | inr (i, f) ↦ elim (Bool-cases (is_rewrite domain ip r)) [
          | inl y ↦ is_rewrite-eq domain ip r y
          | inr y ↦ absurd (
              f (
                r,
                In-filter managed r current (subst (In r) (sym read) i) x,
                y,
                is_rewrite_refl r,
              ))
        ]
      ],
      λ r x. (
        λ m. elim (origin α home law domain ip rows s t k' r m) [
          | inl q ↦
              let y = optigate_hostname-ends_with db in
              let z = subst (λ v. ends_with v ".home" ≡ false) (ap (λ w. w.domain) q) x in cc
          | inr (i, f) ↦ i
        ],
        λ m. survives α home law domain ip rows s t k' r m (λ (q, i, y, z).
            let (d, _) = is_rewrite-eq q.domain q.answer r z in
            let w = (filter-In managed q current i).1 in
            let w' = subst (λ v. ends_with v ".home" ≡ false) d x in cc),
      ),
    )

bool_beq-eq : (a b : Bool) → bool_beq a b ≡ true → a ≡ b
bool_beq-eq true b h = sym h
bool_beq-eq false true h = h
bool_beq-eq false false h = refl

switched :
    {S : Type 0} (α : AdguardClient S) (home : S → AdguardHome)
    → IsDocumented α home
    → (π : Platform) (db : Database) (now : ℕ) (desired : Bool) (current : SafeSearch) (u t : S)
    → switch_safesearch π db now α desired current u ≡ (t, some tt)
    → current ≡ (home u).safesearch
    → home t ≡ record (home u) { safesearch = record ((home u).safesearch) { enabled = desired } }
unfolding switch_safesearch
switched {S} α home law π db now desired current u t h read =
    elim (Bool-cases (bool_beq current.enabled desired)) [
      | inl q ↦
          let same : t ≡ u = ap (λ (x : S × Option Unit). x.0) (sym (rw q at h)) in
          let e : (home u).safesearch.enabled ≡ desired =
            ap (λ (c : SafeSearch). c.enabled) (sym read) ∙ bool_beq-eq current.enabled desired q in
          ap home same
          ∙ (λ i. record (home u) { safesearch = record ((home u).safesearch) { enabled = e i } })
      | inr q ↦
          law.sets_safesearch _ u t (rw q at h)
          ∙ ap (λ (c : SafeSearch). record (home u) { safesearch = record c { enabled = desired } })
              read
    ]

-- A run that comes to an end leaves the SafeSearch switch as the household's setting has it, and
-- changes nothing else. It is assumed that the server does what its interface documents.
pub sync_safesearch-safesearch :
    {S : Type 0} (α : AdguardClient S) (home : S → AdguardHome)
    → IsDocumented α home
    → (π : Platform) (db : Database) (now : ℕ) (s t : S)
    → sync_safesearch π db now α s ≡ (t, some tt)
    → home t ≡ record (home s) {
      safesearch = record ((home s).safesearch) { enabled = safesearch_wanted db };
    }
unfolding sync_safesearch
sync_safesearch-safesearch {S} α home law π db now s t h =
    let (u, current, e, k) = after-inv (ask α.get_safesearch_status s) _ t tt h in
    let stays : u ≡ s = ap (λ (x : S × Option SafeSearch). x.0) (sym e) in
    let k' =
      subst (λ z. switch_safesearch π db now α (safesearch_wanted db) current z ≡ (t, some tt))
        stays k in
    switched α home law π db now (safesearch_wanted db) current s t k'
      (law.reads_safesearch s current (ap (λ (x : S × Option SafeSearch). x.1) e))
