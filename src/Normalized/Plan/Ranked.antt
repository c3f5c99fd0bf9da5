-- ===== src/Normalized/Plan/Ranked.antt =====
-- Ranks of the nodes of a schema without cycles, and the rules by which a walk over them ends.
use schema_to_table.Prelude.{
  ℕ, ◌≤◌, ◌<◌, ◌≡◌, subst, Bool, true, false, none, some, List, [], ◌∷◌, ◌++◌, All, arith,
  if◌then◌else◌,
}
use schema_to_table.Text.{Text}
use schema_to_table.Text.Equality.{same}
use schema_to_table.Maps.{lookup}
use schema_to_table.Outcome.{Outcome, ok, each}
use schema_to_table.Outcome.Laws.{Ends, Ends-bind}
use schema_to_table.Schema.Node.{Node, Ptr, Document, deref, resolve, child}
use schema_to_table.Schema.Values.Visits.{deref-Ends}
use schema_to_table.Normalized.Model.{type_of}

-- The rank falls from a node to no node, to its branches, its properties and its items.
abbrev pub Falls : (Ptr → ℕ) → Ptr → Outcome Node → Type 0
Falls rank p (ok n) =
    (rank none < rank p)
    × All (λ s. rank s < rank p) (n.all_of ++ (n.one_of ++ n.any_of))
    × All (λ e. rank e.1 < rank p) n.properties
    × (rank n.items < rank p)
Falls rank p _ = Unit

-- The rank does not rise along a reference.
abbrev pub Keeps : (Ptr → ℕ) → Ptr → Outcome Ptr → Type 0
Keeps rank p (ok q) = rank q ≤ rank p
Keeps rank p _ = Unit

pub record IsRanked (doc : Document) (rank : Ptr → ℕ) : Type 0 where
  pub falls : (p : Ptr) → Falls rank p (deref doc p)
  pub keeps : (p : Ptr) → Keeps rank p (resolve doc p)

module _ (doc : Document) (rank : Ptr → ℕ) (r : IsRanked doc rank) where
  pub Falls-at : (p : Ptr) (n : Node) → deref doc p ≡ ok n → Falls rank p (ok n)
  Falls-at p n e = subst (Falls rank p) e (r.falls p)

  pub keeps_at : (p q : Ptr) → resolve doc p ≡ ok q → rank q ≤ rank p
  keeps_at p q e = subst (Keeps rank p) e (r.keeps p)

pub Ends-each-All {ℓ κ} :
    {A : Type ℓ} {B : Type κ} (P : A → Type 0) (body : A → B → Outcome B)
    → ((x : A) (s : B) → P x → Ends (body x s))
    → (xs : List A) → All P xs
    → (s : B) → Ends (each body xs s)
unfolding each
Ends-each-All P body h [] a s = tt
Ends-each-All P body h (x ∷ xs) (p, a) s =
    Ends-bind (body x s) (λ s'. each body xs s') (h x s p) (λ s' _. Ends-each-All P body h xs a s')

pub All-left {ℓ} : {A : Type ℓ} (P : A → Type 0) (xs ys : List A) → All P (xs ++ ys) → All P xs
All-left P [] ys h = tt
All-left P (x ∷ xs) ys (p, h) = (p, All-left P xs ys h)

pub All-right {ℓ} : {A : Type ℓ} (P : A → Type 0) (xs ys : List A) → All P (xs ++ ys) → All P ys
All-right P [] ys h = h
All-right P (x ∷ xs) ys (p, h) = All-right P xs ys h

child_cons :
    (key k : Text) (p : Ptr) (m : List (Text × Ptr))
    → child key ((k, p) ∷ m) ≡ (if same k key then p else child key m)
unfolding child lookup
child_cons key k p m = ground arith

pub child-All :
    (P : Ptr → Type 0) (key : Text) (m : List (Text × Ptr))
    → P none
    → All (λ e. P e.1) m
    → P (child key m)
unfolding child lookup
child-All P key [] b h = b
child-All P key ((k, p) ∷ m) b (x, h) =
    rw (child_cons key k p m) (either (same k key) (child-All P key m b h))
  where
    either : (c : Bool) → P (child key m) → P (if c then p else child key m)
    either true y = x
    either false y = y

pub type_of-Ends : (doc : Document) (p : Ptr) → Ends (type_of doc p)
unfolding type_of
type_of-Ends doc none = tt
type_of-Ends doc (some i) = Ends-bind (deref doc (some i)) _ (deref-Ends doc (some i)) λ n _. tt
