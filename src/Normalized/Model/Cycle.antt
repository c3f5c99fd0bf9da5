-- ===== src/Normalized/Model/Cycle.antt =====
-- planNode has no bound on a schema whose arrays hold their own kind: planChildTable begins anew
-- with no node visited.
use schema_to_table.Prelude.{ℕ, zero, suc, ◌≡◌, refl, true, false, some, [], ◌∷◌}
use schema_to_table.Text.{Text}
use schema_to_table.Text.Equality.{same_refl}
use schema_to_table.Outcome.{Outcome, ok, diverge, each}
use schema_to_table.Schema.Names.{sorted_keys, to_snake}
use schema_to_table.Schema.Node.{Node, Ptr, Document, deref, resolve, child}
use schema_to_table.Schema.Types.{primary_type, is_array, is_nil}
use schema_to_table.Schema.Values.{child_prefix, visits}
use schema_to_table.Normalized.Model.{
  TableSpec, Tree, table, nil, has_table, is_scalar, type_of, plan_child_table, plan_property,
  plan_branches, plan_node,
}

-- The node `at` is a plain object with one property, an array whose items are `at` again.
pub record IsRecursive (doc : Document) (at : ℕ) : Type 0 where
  pub node : Node
  pub prop : Node
  pub key : Text
  pub array : Ptr
  pub resolved : Ptr
  pub itself : resolve doc (some at) ≡ ok (some at)
  pub read : deref doc (some at) ≡ ok node
  pub no_all_of : node.all_of ≡ []
  pub no_one_of : node.one_of ≡ []
  pub no_any_of : node.any_of ≡ []
  pub one_property : node.properties ≡ (key, array) ∷ []
  pub array_resolved : resolve doc array ≡ ok resolved
  pub array_read : deref doc resolved ≡ ok prop
  pub is_an_array : is_array prop ≡ true
  pub has_items : is_nil prop.items ≡ false
  pub items_itself : resolve doc prop.items ≡ ok (some at)
  pub holds_objects : is_scalar (primary_type node) ≡ false

child_self : (k : Text) (p : Ptr) → child k ((k, p) ∷ []) ≡ p
unfolding child
child_self k p = rw (child, same_refl k)

module _ (doc : Document) (at : ℕ) (r : IsRecursive doc at) where
  module _ (plan : Text → Ptr → Tree → Outcome Tree)
      (runs_out : (prefix : Text) (t : TableSpec)
        → plan prefix (some at) (table t nil) ≡ diverge) where
    child_diverges :
        (prefix segment : Text) (t : TableSpec)
        → plan_child_table doc plan prefix segment r.prop (table t nil) ≡ diverge
    unfolding plan_child_table type_of has_table
    child_diverges prefix segment t =
        rw (r.has_items, r.items_itself, r.read, r.holds_objects, runs_out) refl

    property_diverges :
        (recur : Text → Ptr → Tree → Outcome Tree) (prefix : Text) (t : TableSpec)
        → plan_property doc recur plan prefix ((r.key, r.array) ∷ []) r.key (table t nil) ≡ diverge
    unfolding plan_property
    property_diverges recur prefix t =
        rw (child_self r.key r.array, r.array_resolved, r.array_read, r.is_an_array)
          (child_diverges (child_prefix prefix r.key) (to_snake r.key) t)

    branches_diverge :
        (recur : Text → Ptr → Tree → Outcome Tree) (prefix : Text) (t : TableSpec)
        → plan_branches doc recur plan prefix r.node (table t nil) ≡ diverge
    unfolding plan_branches each sorted_keys
    branches_diverge recur prefix t =
        rw (r.no_all_of, r.no_one_of, r.no_any_of, r.one_property, property_diverges recur prefix t)
          refl

  -- With any fuel planNode runs out of it on such a node, for every table without children.
  pub plan_node_diverges :
      (fuel : ℕ) (prefix : Text) (t : TableSpec)
      → plan_node doc fuel [] prefix (some at) (table t nil) ≡ diverge
  unfolding plan_node visits
  plan_node_diverges zero prefix t = refl
  plan_node_diverges (suc fuel) prefix t =
      rw (r.itself, r.read)
        (branches_diverge (plan_node doc fuel []) (λ p u. plan_node_diverges fuel p u)
          (plan_node doc fuel (some at ∷ [])) prefix t)
