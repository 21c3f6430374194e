-- ===== src/Adguard/Keeps.antt =====
-- Adguard/Client: what a run leaves unchanged, by the requests that it makes.
use opti_gate.Base.{List, [], ◌∷◌, Option, none, some, Bool, true, false}
use opti_gate.Base.{◌≡◌, refl, sym, ap, ◌∙◌, if◌then◌else◌}
use opti_gate.Adguard.Client.{Action, after, ◌>>=◌, done, attempt, ask, for_each}

-- A run that came to an end went through both steps.
pub after-inv :
    {S A B : Type 0} (m : S × Option A) (k : A → Action S B) (t : S) (b : B)
    → after m k ≡ (t, some b)
    → (s : S) × (a : A) × (m ≡ (s, some a)) × (k a s ≡ (t, some b))
after-inv {S} {A} {B} (s, none) k t b h = let e = ap (λ (x : S × Option B). x.1) h in cc
after-inv (s, some a) k t b h = (s, a, refl, h)

module _ {S X : Type 0} (view : S → X) where
  -- A run that came to an end left what is viewed as it was.
  abbrev pub Keeps : {A : Type 0} → Action S A → Type 0
  Keeps {A} m = (s t : S) (a : A) → m s ≡ (t, some a) → view t ≡ view s

  view-first :
      {A : Type 0} {s t : S} {o p : Option A}
      → ◌≡◌ {A = S × Option A} (s, o) (t, p)
      → view t ≡ view s
  view-first {A} h = ap (λ (x : S × Option A). view x.0) (sym h)

  pub done-Keeps : {A : Type 0} (a : A) → Keeps (done a)
  done-Keeps a s t b h = view-first h

  pub attempt-Keeps : {A : Type 0} (o : Option A) → Keeps (attempt o)
  attempt-Keeps o s t b h = view-first h

  pub ask-Keeps : {A : Type 0} (read : S → Option A) → Keeps (ask read)
  ask-Keeps read s t b h = view-first h

  pub >>=-Keeps :
      {A B : Type 0} (m : Action S A) (k : A → Action S B)
      → Keeps m
      → ((a : A) → Keeps (k a))
      → Keeps (m >>= k)
  >>=-Keeps m k h f s t b e = let (u, a, x, y) = after-inv (m s) k t b e in f a u t b y ∙ h s u a x

  pub if-Keeps :
      {A : Type 0} (c : Bool) (m n : Action S A) → Keeps m → Keeps n → Keeps (if c then m else n)
  if-Keeps true m n h k = h
  if-Keeps false m n h k = k

  pub for_each-Keeps :
      {A : Type 0} (f : A → Action S Unit) (items : List A)
      → ((a : A) → Keeps (f a))
      → Keeps (for_each f items)
  unfolding for_each
  for_each-Keeps f [] h = done-Keeps tt
  for_each-Keeps f (a ∷ rest) h =
      >>=-Keeps (f a) (λ _. for_each f rest) (h a) (λ _. for_each-Keeps f rest h)
