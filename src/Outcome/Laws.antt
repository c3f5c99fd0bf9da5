-- ===== src/Outcome/Laws.antt =====
-- Rules for outcomes: totality of a loop, and two loops that keep a relation.
use schema_to_table.Prelude.{◌≡◌, refl, subst, Bool, true, false, if◌then◌else◌, List, [], ◌∷◌}
use schema_to_table.Outcome.{Outcome, ok, err, panic, diverge, ◌>>=◌, wrap, each}
use schema_to_table.Text.{Text}

-- The outcome is reached: the recursion did not run out of fuel.
abbrev pub Ends {ℓ} : {A : Type ℓ} → Outcome A → Type 0
Ends diverge = ⊥
Ends _ = Unit

pub Ends-bind {ℓ κ} :
    {A : Type ℓ} {B : Type κ} (m : Outcome A) (f : A → Outcome B)
    → Ends m
    → ((a : A) → m ≡ ok a → Ends (f a))
    → Ends (m >>= f)
Ends-bind (ok a) f h k = k a refl
Ends-bind (err e) f h k = tt
Ends-bind panic f h k = tt
Ends-bind diverge f h k = h

pub Ends-if {ℓ} :
    {A : Type ℓ} (b : Bool) (x y : Outcome A) → Ends x → Ends y → Ends (if b then x else y)
Ends-if true x y h k = h
Ends-if false x y h k = k

pub Ends-wrap {ℓ} : {A : Type ℓ} (t : Text) (m : Outcome A) → Ends m → Ends (wrap t m)
Ends-wrap t (ok a) h = tt
Ends-wrap t (err e) h = tt
Ends-wrap t panic h = tt
Ends-wrap t diverge h = h

pub Ends-each {ℓ κ} :
    {A : Type ℓ} {S : Type κ} (body : A → S → Outcome S)
    → ((x : A) (s : S) → Ends (body x s))
    → (xs : List A) (s : S) → Ends (each body xs s)
unfolding each
Ends-each body h [] s = tt
Ends-each body h (x ∷ xs) s =
    Ends-bind (body x s) (λ s'. each body xs s') (h x s) (λ s' _. Ends-each body h xs s')

-- Two outcomes of one kind: related results, or the same error.
abbrev pub Agree {ℓ κ} :
    {A : Type ℓ} {B : Type κ} → (A → B → Type 0) → Outcome A → Outcome B → Type 0
Agree R (ok a) (ok b) = R a b
Agree R (err e) (err e') = e ≡ e'
Agree R panic panic = Unit
Agree R diverge diverge = Unit
Agree R _ _ = ⊥

module _ {ℓ κ} {A : Type ℓ} {B : Type κ} (R : A → B → Type 0) where
  pub Agree-bind {μ ν} :
      {C : Type μ} {D : Type ν} (Q : C → D → Type 0) (m : Outcome A) (n : Outcome B)
      (f : A → Outcome C) (g : B → Outcome D)
      → Agree R m n
      → ((a : A) (b : B) → R a b → Agree Q (f a) (g b))
      → Agree Q (m >>= f) (n >>= g)
  Agree-bind Q (ok a) (ok b) f g h k = k a b h
  Agree-bind Q (err e) (err e') f g h k = h
  Agree-bind Q panic panic f g h k = tt
  Agree-bind Q diverge diverge f g h k = tt
  Agree-bind Q (ok a) (err e) f g h k = absurd h
  Agree-bind Q (ok a) panic f g h k = absurd h
  Agree-bind Q (ok a) diverge f g h k = absurd h
  Agree-bind Q (err e) (ok b) f g h k = absurd h
  Agree-bind Q (err e) panic f g h k = absurd h
  Agree-bind Q (err e) diverge f g h k = absurd h
  Agree-bind Q panic (ok b) f g h k = absurd h
  Agree-bind Q panic (err e) f g h k = absurd h
  Agree-bind Q panic diverge f g h k = absurd h
  Agree-bind Q diverge (ok b) f g h k = absurd h
  Agree-bind Q diverge (err e) f g h k = absurd h
  Agree-bind Q diverge panic f g h k = absurd h

module _ {ℓ κ} {S : Type ℓ} {T : Type κ} (R : S → T → Type 0) where
  -- A step that both sides make before they go on.
  pub Agree-after {α} :
      {A : Type α} (m : Outcome A) (f : A → Outcome S) (g : A → Outcome T)
      → ((a : A) → m ≡ ok a → Agree R (f a) (g a))
      → Agree R (m >>= f) (m >>= g)
  Agree-after (ok a) f g h = h a refl
  Agree-after (err e) f g h = refl
  Agree-after panic f g h = tt
  Agree-after diverge f g h = tt

  pub Agree-each {α} :
      {A : Type α} (f : A → S → Outcome S) (g : A → T → Outcome T)
      → ((x : A) (s : S) (t : T) → R s t → Agree R (f x s) (g x t))
      → (xs : List A) (s : S) (t : T) → R s t
      → Agree R (each f xs s) (each g xs t)
  unfolding each
  Agree-each f g h [] s t r = r
  Agree-each f g h (x ∷ xs) s t r =
      Agree-bind R R (f x s) (g x t) (λ s'. each f xs s') (λ t'. each g xs t') (h x s t r)
        (λ s' t' r'. Agree-each f g h xs s' t' r')

pub Agree-wrap {ℓ κ} :
    {A : Type ℓ} {B : Type κ} (R : A → B → Type 0) (t : Text) (m : Outcome A) (n : Outcome B)
    → Agree R m n
    → Agree R (wrap t m) (wrap t n)
Agree-wrap R t (ok a) (ok b) h = h
Agree-wrap R t (err e) (err e') h = cc
Agree-wrap R t panic panic h = tt
Agree-wrap R t diverge diverge h = tt
Agree-wrap R t (ok a) (err e) h = absurd h
Agree-wrap R t (ok a) panic h = absurd h
Agree-wrap R t (ok a) diverge h = absurd h
Agree-wrap R t (err e) (ok b) h = absurd h
Agree-wrap R t (err e) panic h = absurd h
Agree-wrap R t (err e) diverge h = absurd h
Agree-wrap R t panic (ok b) h = absurd h
Agree-wrap R t panic (err e) h = absurd h
Agree-wrap R t panic diverge h = absurd h
Agree-wrap R t diverge (ok b) h = absurd h
Agree-wrap R t diverge (err e) h = absurd h
Agree-wrap R t diverge panic h = absurd h

-- A result, if there is one, has the property.
abbrev pub Holds {ℓ} : {A : Type ℓ} → (A → Type 0) → Outcome A → Type 0
Holds P (ok a) = P a
Holds P _ = Unit

pub Holds-bind {ℓ κ} :
    {A : Type ℓ} {B : Type κ} (P : B → Type 0) (m : Outcome A) (f : A → Outcome B)
    → ((a : A) → m ≡ ok a → Holds P (f a))
    → Holds P (m >>= f)
Holds-bind P (ok a) f h = h a refl
Holds-bind P (err e) f h = tt
Holds-bind P panic f h = tt
Holds-bind P diverge f h = tt

pub Holds-each {ℓ κ} :
    {A : Type ℓ} {S : Type κ} (P : S → Type 0) (body : A → S → Outcome S)
    → ((x : A) (s : S) → P s → Holds P (body x s))
    → (xs : List A) (s : S) → P s
    → Holds P (each body xs s)
unfolding each
Holds-each P body h [] s p = p
Holds-each P body h (x ∷ xs) s p =
    Holds-bind P (body x s) (λ s'. each body xs s')
      (λ s' e. Holds-each P body h xs s' (subst (Holds P) e (h x s p)))

pub Holds-ok {ℓ} :
    {A : Type ℓ} (P : A → Type 0) (m : Outcome A) (a : A) → Holds P m → m ≡ ok a → P a
Holds-ok P m a h e = subst (Holds P) e h

-- Inversion of a bind and of a wrapped error, for results.
pub bind-eq-ok {ℓ κ} :
    {A : Type ℓ} {B : Type κ} (m : Outcome A) (f : A → Outcome B) (b : B)
    → (m >>= f) ≡ ok b
    → (a : A) × (m ≡ ok a) × (f a ≡ ok b)
bind-eq-ok (ok a) f b h = (a, refl, h)
bind-eq-ok (err e) f b h = cc
bind-eq-ok panic f b h = cc
bind-eq-ok diverge f b h = cc

pub wrap-eq-ok {ℓ} : {A : Type ℓ} (t : Text) (m : Outcome A) (a : A) → wrap t m ≡ ok a → m ≡ ok a
wrap-eq-ok t (ok b) a h = h
wrap-eq-ok t (err e) a h = cc
wrap-eq-ok t panic a h = cc
wrap-eq-ok t diverge a h = cc

pub Agree-ok {ℓ κ} :
    {A : Type ℓ} {B : Type κ} (R : A → B → Type 0) (m : Outcome A) (n : Outcome B) (a : A) (b : B)
    → Agree R m n
    → m ≡ ok a
    → n ≡ ok b
    → R a b
Agree-ok R m n a b h e f = subst (λ k. Agree R (ok a) k) f (subst (λ k. Agree R k n) e h)
