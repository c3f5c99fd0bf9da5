-- ===== src/Normalized/Model/Walk.antt =====
-- What holds of every table that planNode returns: a rule for predicates on the tables and on the
-- links between a table and those of its arrays.
use schema_to_table.Prelude.{
  ℕ, zero, suc, not, ◌&&◌, none, some, List, [], ◌∷◌, ◌++◌, inl, inr, Bool-cases, if◌then◌else◌,
}
use schema_to_table.Text.{Text, codes}
use schema_to_table.Outcome.{Outcome, ok, ◌>>=◌, each}
use schema_to_table.Outcome.Laws.{Holds, Holds-bind, Holds-each, Holds-ok}
use schema_to_table.Schema.Names.{sanitize_ident, sorted_keys, to_snake}
use schema_to_table.Schema.Node.{Node, Ptr, Document, deref, resolve, child}
use schema_to_table.Schema.Types.{sql_type, is_array, is_composite, is_object, is_nil}
use schema_to_table.Schema.Values.{child_prefix, visits}
use schema_to_table.Normalized.Model.{
  own_key, TableSpec, Tree, table, Forest, nil, cons, append_tree, add_model_column, new_spec,
  schema_desc, type_of, is_scalar, has_table, grow, plan_child_table, plan_property, plan_branches,
  plan_node,
}

-- The table that planChildTable begins a child with.
abbrev pub fresh_child : TableSpec → Text → Text → Ptr → Text → Text → TableSpec
fresh_child t prefix segment items desc value_col =
    record (new_spec (t.name ++ (codes "_" ++ sanitize_ident prefix)) []) {
      path = t.path ++ (to_snake segment ∷ []);
      schema = items;
      parent = some (own_key t);
      desc = desc;
      value_col = value_col;
    }

-- addModelColumn keeps `K`.
abbrev pub Stays : (TableSpec → Type 0) → Type 0
Stays K = (name type : Text) (t : TableSpec) → K t → K (add_model_column name type t)

module _ (Each : TableSpec → Type 0) (Link : TableSpec → TableSpec → Type 0) where
  -- All tables of a forest below `t`, at any depth, and the links between them.
  abbrev pub Below : TableSpec → Forest → Type 0
  Below t nil = Unit
  Below t (cons (table c cs) rest) = (Each c × Link t c) × Below c cs × Below t rest

  -- The tree of a table that has `K`.
  abbrev pub Planned : (TableSpec → Type 0) → Tree → Type 0
  Planned K (table t ts) = K t × Below t ts

  Below-append :
      (t : TableSpec) (ts : Forest) (c : TableSpec) (cs : Forest)
      → Below t ts
      → Each c × Link t c
      → Below c cs
      → Below t (append_tree ts (table c cs))
  unfolding append_tree
  Below-append t nil c cs h k b = (k, b, tt)
  Below-append t (cons (table d ds) rest) c cs (e, f, h) k b =
      (e, f, Below-append t rest c cs h k b)

  module _
      (Each-add : (name type : Text) (t : TableSpec) → Each t → Each (add_model_column name type t))
      (Link-parent : (name type : Text) (t c : TableSpec)
        → Link t c
        → Link (add_model_column name type t) c)
      (Link-child : (name type : Text) (t c : TableSpec)
        → Link t c
        → Link t (add_model_column name type c))
      (begin : (t : TableSpec) (prefix segment : Text) (items : Ptr) (desc value_col : Text)
        → Each (fresh_child t prefix segment items desc value_col)
          × Link t (fresh_child t prefix segment items desc value_col)) where
    Below-add :
        (name type : Text) (t : TableSpec) (ts : Forest)
        → Below t ts
        → Below (add_model_column name type t) ts
    Below-add name type t nil h = tt
    Below-add name type t (cons (table c cs) rest) ((e, l), f, h) =
        ((e, Link-parent name type t c l), f, Below-add name type t rest h)

    module _ (doc : Document) where
      -- A call of planNode with no node visited keeps every predicate that stays.
      abbrev Anew : (Text → Ptr → Tree → Outcome Tree) → Type 1
      Anew plan =
          (K : TableSpec → Type 0)
          → Stays K
          → (prefix : Text) (s : Ptr) (tree : Tree) → Planned K tree
          → Holds (Planned K) (plan prefix s tree)

      Link-child_Stays : (t : TableSpec) → Stays (λ c. Each c × Link t c)
      Link-child_Stays t name type c (e, l) = (Each-add name type c e, Link-child name type t c l)

      grow-Planned :
          (K : TableSpec → Type 0) (t : TableSpec) (ts : Forest) (c : Tree)
          → Planned K (table t ts)
          → Planned (λ d. Each d × Link t d) c
          → Planned K (grow (table t ts) c)
      grow-Planned K t ts (table c cs) (k, h) (l, b) = (k, Below-append t ts c cs h l b)

      plan_child_table-Holds :
          (plan : Text → Ptr → Tree → Outcome Tree)
          → Anew plan
          → (K : TableSpec → Type 0) (prefix segment : Text) (prop : Node) (t : TableSpec)
            (ts : Forest)
          → Planned K (table t ts)
          → Holds (Planned K) (plan_child_table doc plan prefix segment prop (table t ts))
      unfolding plan_child_table
      plan_child_table-Holds plan anew K prefix segment prop t ts p =
          elim (Bool-cases (is_nil prop.items)) [
            | inl e ↦ rw e tt
            | inr e ↦
                rw e (Holds-bind (Planned K) (resolve doc prop.items) _ λ items _. at_items items)
          ]
        where
          start : Ptr → Text → TableSpec
          start items value_col = fresh_child t prefix segment items (schema_desc prop) value_col

          scalar :
              (items : Ptr)
              → Holds (Planned K) (do
                n ← deref doc items
                ok (
                    grow (table t ts) (
                      table
                        (add_model_column
                          (codes "value")
                          (sql_type n (codes "TEXT"))
                          (start items (codes "value")))
                        nil)))
          scalar items = Holds-bind (Planned K) (deref doc items) _ λ n _. grow-Planned K t ts _ p (
            Link-child_Stays t (codes "value") _ _ (begin t prefix segment items _ (codes "value")),
            tt,
          )

          objects :
              (items : Ptr)
              → Holds (Planned K) (do
                planned ← plan [] items (table (start items []) nil)
                ok (grow (table t ts) planned))
          objects items =
              Holds-bind (Planned K) (plan [] items (table (start items []) nil)) _ λ planned e.
                grow-Planned K t ts planned p (
                  Holds-ok (Planned (λ c. Each c × Link t c)) _ planned
                    (anew (λ c. Each c × Link t c) (Link-child_Stays t) [] items
                      (table (start items []) nil) (begin t prefix segment items _ [], tt))
                    e)

          at_items :
              (items : Ptr)
              → Holds (Planned K) (
                  if has_table (t.name ++ (codes "_" ++ sanitize_ident prefix)) ts
                  then ok (table t ts)
                  else do
                    type ← type_of doc items
                    if is_scalar type
                        then (do
                          n ← deref doc items
                          ok (
                              grow (table t ts) (
                                table
                                  (add_model_column
                                    (codes "value")
                                    (sql_type n (codes "TEXT"))
                                    (start items (codes "value")))
                                  nil)))
                        else (do
                          planned ← plan [] items (table (start items []) nil)
                          ok (grow (table t ts) planned)))
          at_items items =
              elim (Bool-cases (has_table (t.name ++ (codes "_" ++ sanitize_ident prefix)) ts)) [
                | inl e ↦ rw e p
                | inr e ↦ rw e (
                    Holds-bind (Planned K) (type_of doc items) _ λ type _.
                      elim (Bool-cases (is_scalar type)) [
                        | inl f ↦ rw f (scalar items)
                        | inr f ↦ rw f (objects items)
                      ])
              ]

      module _ (plan plan_anew : Text → Ptr → Tree → Outcome Tree) (anew : Anew plan_anew)
          (K : TableSpec → Type 0) (stays : Stays K)
          (h : (prefix : Text) (s : Ptr) (tree : Tree)
            → Planned K tree
            → Holds (Planned K) (plan prefix s tree)) where
        plan_property-Holds :
            (prefix : Text) (properties : List (Text × Ptr)) (key : Text) (tree : Tree)
            → Planned K tree
            → Holds (Planned K) (plan_property doc plan plan_anew prefix properties key tree)
        unfolding plan_property
        plan_property-Holds prefix properties key (table t ts) p =
            let name = child_prefix prefix key in
            Holds-bind (Planned K) (resolve doc (child key properties)) _ λ r _.
              Holds-bind (Planned K) (deref doc r) _ λ n _. elim (Bool-cases (is_array n)) [
                | inl a ↦
                    rw a (plan_child_table-Holds plan_anew anew K name (to_snake key) n t ts p)
                | inr a ↦
                    elim (Bool-cases (is_object n && is_nil n.items && not (is_composite n))) [
                      | inl o ↦ rw (a, o) tt
                      | inr o ↦ elim (Bool-cases (is_composite n)) [
                        | inl c ↦ rw (a, o, c) (h name r (table t ts) p)
                        | inr c ↦ rw (a, o, c) (stays name _ t p.0, Below-add name _ t ts p.1)
                      ]
                    ]
              ]

        plan_branches-Holds :
            (prefix : Text) (n : Node) (tree : Tree)
            → Planned K tree
            → Holds (Planned K) (plan_branches doc plan plan_anew prefix n tree)
        unfolding plan_branches
        plan_branches-Holds prefix n tree p =
            let loop = λ (l : List Ptr) (t : Tree). each (λ sub. plan prefix sub) l t in
            let kept = Holds-each (Planned K) (λ sub. plan prefix sub) (λ sub u. h prefix sub u) in
            Holds-bind (Planned K) (loop n.all_of tree) _ λ t₁ e₁.
              Holds-bind (Planned K) (loop (n.one_of ++ n.any_of) t₁) _ λ t₂ e₂.
                Holds-each (Planned K) (plan_property doc plan plan_anew prefix n.properties)
                  (plan_property-Holds prefix n.properties) (sorted_keys n.properties) t₂
                  (Holds-ok (Planned K) _ t₂
                    (kept (n.one_of ++ n.any_of) t₁
                      (Holds-ok (Planned K) _ t₁ (kept n.all_of tree p) e₁))
                    e₂)

      pub plan_node-Holds :
          (fuel : ℕ) (visited : List Ptr) (K : TableSpec → Type 0)
          → Stays K
          → (prefix : Text) (s : Ptr) (tree : Tree) → Planned K tree
          → Holds (Planned K) (plan_node doc fuel visited prefix s tree)
      unfolding plan_node
      plan_node-Holds zero visited K stays prefix s tree p = tt
      plan_node-Holds (suc fuel) visited K stays prefix none tree p = p
      plan_node-Holds (suc fuel) visited K stays prefix (some i) tree p =
          Holds-bind (Planned K) (resolve doc (some i)) _ λ r _.
            elim (Bool-cases (visits visited r)) [
              | inl old ↦ rw old p
              | inr new ↦ rw new (
                  Holds-bind (Planned K) (deref doc r) _ λ n _.
                    plan_branches-Holds (plan_node doc fuel (r ∷ visited)) (plan_node doc fuel [])
                      (plan_node-Holds fuel []) K stays (plan_node-Holds fuel (r ∷ visited) K stays)
                      prefix n tree p)
            ]
