-- ===== src/Schema/Values/Visits.antt =====
-- Every node that a walk marks is a new one, so the marks are bounded by the number of nodes.
use schema_to_table.Prelude.{
  ℕ, zero, suc, ◌≤◌, ◌<◌, ◌≡◌, true, false, none, some, List, ◌∷◌, length, get_elem?-some, arith,
  ◌==◌, ==_iff, if◌then◌else◌, inl, inr, Bool-cases,
}
use schema_to_table.Outcome.{ok}
use schema_to_table.Outcome.Laws.{Ends}
use schema_to_table.Schema.Node.{Node, Ptr, Document, deref, resolve}
use schema_to_table.Schema.Values.{visits}

-- How many of the first n nodes have no mark.
pub room : ℕ → List Ptr → ℕ
room zero v = 0
room (suc n) v = let r = room n v in if visits v (some n) then r else suc r

pub room-le : (n : ℕ) (v : List Ptr) → room n v ≤ n
unfolding room
room-le zero v = omega arith
room-le (suc n) v = ground (arith, room-le n v)

room-cons-le : (n : ℕ) (p : Ptr) (v : List Ptr) → room n (p ∷ v) ≤ room n v
unfolding room visits
room-cons-le zero p v = omega arith
room-cons-le (suc n) p v = ground (arith, room-cons-le n p v)

visits_self : (i : ℕ) (v : List Ptr) → visits (some i ∷ v) (some i) ≡ true
unfolding visits
visits_self i v = ground arith

visits-cons :
    (i j : ℕ) (v : List Ptr) → (i == j) ≡ false → visits (some i ∷ v) (some j) ≡ visits v (some j)
unfolding visits
visits-cons i j v h = ground arith

room-mark :
    (n i : ℕ) (v : List Ptr) → i < n → visits v (some i) ≡ false → room n (some i ∷ v) < room n v
unfolding room
room-mark zero i v h new = elim h [ ]
room-mark (suc n) i v h new = elim (Bool-cases (i == n)) [
  | inl e ↦ at_end ((==_iff i n).0 e)
  | inr e ↦ rw (visits-cons i n v e) (ground (arith, room-mark n i v (ground arith) new))
]
  where
    at_end : i ≡ n → room (suc n) (some i ∷ v) < room (suc n) v
    at_end e = rw (← e, visits_self i v, new) (omega (arith, room-cons-le i (some i) v))

deref-ok : (doc : Document) (i : ℕ) (n : Node) → deref doc (some i) ≡ ok n → i < length doc.nodes
unfolding deref
deref-ok doc i n h = get_elem?-some doc.nodes i {x = n} (ground arith)

-- A node that is read and has no mark leaves less room when it is marked.
pub room-deref :
    (doc : Document) (p : Ptr) (n : Node) (v : List Ptr)
    → deref doc p ≡ ok n
    → visits v p ≡ false
    → room (length doc.nodes) (p ∷ v) < room (length doc.nodes) v
room-deref doc none n v e new = absurd (unfold deref in cc)
room-deref doc (some i) n v e new = room-mark (length doc.nodes) i v (deref-ok doc i n e) new

pub deref-Ends : (doc : Document) (p : Ptr) → Ends (deref doc p)
unfolding deref
deref-Ends doc none = tt
deref-Ends doc (some i) = ground arith

pub resolve-Ends : (doc : Document) (p : Ptr) → Ends (resolve doc p)
unfolding resolve
resolve-Ends doc none = tt
resolve-Ends doc (some i) = ground arith
