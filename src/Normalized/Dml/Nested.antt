-- ===== src/Normalized/Dml/Nested.antt =====
-- Arrays inside arrays. The path of a nested table leads from the root, and renderChildren follows
-- it from the item that holds the array, so the rows of nested arrays are not found.
use mathlib.Core.Path.{fun_ext}
use schema_to_table.Prelude.{
  ℕ, suc, ◌≡◌, refl, ◌∙◌, ap, subst, Option, some, List, [], ◌∷◌, ◌++◌, All, arith,
}
use schema_to_table.Text.{Text}
use schema_to_table.Json.{
  Json, Items, null, bool, num, str, arr, obj, items_list, fields_list, show,
}
use schema_to_table.Outcome.{Outcome, ok, ◌>>=◌}
use schema_to_table.Outcome.Laws.{Holds-ok}
use schema_to_table.Schema.Names.{to_snake}
use schema_to_table.Schema.Node.{Document, Ptr}
use schema_to_table.Normalized.Model.{
  ParentKey, TableSpec, Tree, table, Forest, nil, cons, spec, arrays, add_model_column, plan_node,
}
use schema_to_table.Normalized.Model.Walk.{Below, Planned, Stays, plan_node-Holds}
use schema_to_table.Normalized.Plan.{Model, plan, with_key, pk_type, finish_spec, finish_forest}
use schema_to_table.Normalized.Model.{own_key}
use schema_to_table.Normalized.Plan.Result.{plan-IsResult}
use schema_to_table.Normalized.Dml.Inserts.{row_body}
use schema_to_table.Normalized.Dml.{
  Stmt, insert_row, navigate_path, step_into, over_items, over_array, child_cells, render_children,
  cols, lits,
}

-- No table of the forest has its array in the value.
abbrev pub NoneFound : Json → Forest → Type 0
NoneFound v nil = Unit
NoneFound v (cons (table t ts) rest) = (navigate_path v t.path ≡ null) × NoneFound v rest

-- Where no array is found no row is inserted.
render_children-NoneFound :
    (m : Model) (ts : Forest) (subject : Json) (parent_key : List Text) (out : List Stmt)
    → NoneFound subject ts
    → render_children m ts subject parent_key out ≡ ok out
unfolding render_children over_array
render_children-NoneFound m nil subject parent_key out h = refl
render_children-NoneFound m (cons (table child ts) rest) subject parent_key out (e, h) =
    rw e (render_children-NoneFound m rest subject parent_key out h)

-- The value has no entry for the segment: it is no object, or the object has neither that key nor
-- one with that snake case.
abbrev pub Lacks : Text → Json → Type 0
Lacks seg (obj fs) = step_into seg (fields_list fs) ≡ null
Lacks seg _ = Unit

-- A null has nothing below it.
navigate_path-null : (path : List Text) → navigate_path null path ≡ null
unfolding navigate_path
navigate_path-null [] = refl
navigate_path-null (seg ∷ path) = refl

navigate_path-Lacks :
    (seg : Text) (path : List Text) (v : Json) → Lacks seg v → navigate_path v (seg ∷ path) ≡ null
unfolding navigate_path
navigate_path-Lacks seg path (obj fs) h = rw h (navigate_path-null path)
navigate_path-Lacks seg path null h = refl
navigate_path-Lacks seg path (bool b) h = refl
navigate_path-Lacks seg path (num d) h = refl
navigate_path-Lacks seg path (str s) h = refl
navigate_path-Lacks seg path (arr xs) h = refl

-- The paths of the tables of a forest go on from `path`.
abbrev PathsFrom : List Text → Forest → Type 0
PathsFrom path nil = Unit
PathsFrom path (cons (table t ts) rest) =
    ((seg : Text) × (t.path ≡ path ++ (seg ∷ []))) × PathsFrom path rest

PathsFrom-NoneFound :
    (seg : Text) (ts : Forest) (v : Json) → PathsFrom (seg ∷ []) ts → Lacks seg v → NoneFound v ts
PathsFrom-NoneFound seg nil v h l = tt
PathsFrom-NoneFound seg (cons (table t ts) rest) v ((next, e), h) l =
    (rw e (navigate_path-Lacks seg (next ∷ []) v l), PathsFrom-NoneFound seg rest v h l)

-- The tables of the root's arrays, without those below them.
unfoldable pub first_level : Forest → Forest
first_level nil = nil
first_level (cons (table t ts) rest) = cons (table t nil) (first_level rest)

-- The tables of the root's arrays have a path of one segment, those below them one of two.
abbrev pub TwoLevels : Forest → Type 0
TwoLevels nil = Unit
TwoLevels (cons (table t ts) rest) =
    ((seg : Text) × (t.path ≡ seg ∷ []) × PathsFrom (seg ∷ []) ts) × TwoLevels rest

-- In no array of the document does an item have an entry under the array's own key.
abbrev pub ItemsLack : Text → Json → Type 0
ItemsLack seg (arr xs) = All (Lacks seg) (items_list xs)
ItemsLack seg _ = Unit

-- The array's own key is the last segment of its path, of a path of one.
abbrev pub LacksOwn : List Text → Json → Type 0
LacksOwn (seg ∷ []) v = ItemsLack seg v
LacksOwn _ v = Unit

abbrev pub NoSelfKeys : Json → Forest → Type 0
NoSelfKeys v nil = Unit
NoSelfKeys v (cons (table t ts) rest) = LacksOwn t.path (navigate_path v t.path) × NoSelfKeys v rest

module _ (f g : Json → ℕ → List Stmt → Outcome (List Stmt)) (P : Json → Type 0)
    (same_body : (item : Json) (i : ℕ) (out : List Stmt)
      → P item
      → f item i out ≡ g item i out) where
  over_items-ext :
      (items : List Json) (i : ℕ) (out : List Stmt)
      → All P items
      → over_items f items i out ≡ over_items g items i out
  unfolding over_items
  over_items-ext [] i out h = refl
  over_items-ext (x ∷ items) i out (p, h) =
      rw (same_body x (suc i) out p)
        (ap (λ k. g x (suc i) out >>= k) (fun_ext λ o. over_items-ext items (suc i) o h))

  over_array-ext :
      (seg : Text) (child : TableSpec) (v : Json) (after : List Stmt → List Stmt) (out : List Stmt)
      → ((xs : Items) → v ≡ arr xs → All P (items_list xs))
      → over_array f child v after out ≡ over_array g child v after out
  unfolding over_array
  over_array-ext seg child (arr xs) after out h =
      ap (λ o. o >>= λ o'. ok (after o')) (over_items-ext (items_list xs) 0 out (h xs refl))
  over_array-ext seg child _ after out h = refl

ItemsLack-items :
    (seg : Text) (v : Json)
    → ItemsLack seg v
    → (xs : Items) → v ≡ arr xs
    → All (Lacks seg) (items_list xs)
ItemsLack-items seg v h xs e = subst (ItemsLack seg) e h

module _ (m : Model) (value : Json) (key : List Text) where
  row_body_loses :
      (t : TableSpec) (ts : Forest) (seg : Text) (item : Json) (i : ℕ) (out : List Stmt)
      → PathsFrom (seg ∷ []) ts
      → Lacks seg item
      → row_body m t ts key item i out ≡ row_body m t nil key item i out
  unfolding render_children
  row_body_loses t ts seg item i out paths lack =
      ap (λ k. child_cells m t item key i >>= k)
        (fun_ext λ cells.
          render_children-NoneFound m ts item (key ++ (show i ∷ []))
            (out ++ (insert_row t.name (cols cells) (lits cells) ∷ []))
            (PathsFrom-NoneFound seg ts item paths lack))

  first_level_rows :
      (ts : Forest) (out : List Stmt)
      → TwoLevels ts
      → NoSelfKeys value ts
      → render_children m ts value key out ≡ render_children m (first_level ts) value key out
  unfolding render_children first_level
  first_level_rows nil out levels lack = refl
  first_level_rows (cons (table t ts) rest) out ((seg, e, paths), levels) (self, lack) =
      ap (λ o. o >>= λ o'. render_children m rest value key o')
        (over_array-ext (row_body m t ts key) (row_body m t nil key) (Lacks seg)
          (λ item i o l. row_body_loses t ts seg item i o paths l) seg t
          (navigate_path value t.path) (λ o. o) out
          (ItemsLack-items seg (navigate_path value t.path)
            (subst (λ path. LacksOwn path (navigate_path value t.path)) e self)))
      ∙ ap
          (λ k. over_array (row_body m t nil key) t (navigate_path value t.path) (λ o. o) out >>= k)
          (fun_ext λ o. first_level_rows rest o levels lack)

-- The path of a child goes on from that of its parent by one segment.
abbrev Extends : TableSpec → TableSpec → Type 0
Extends t c = (seg : Text) × (c.path ≡ t.path ++ (seg ∷ []))

Below-PathsFrom :
    (t : TableSpec) (ts : Forest) (p : ParentKey)
    → Below (λ _. Unit) Extends t ts
    → PathsFrom t.path (finish_forest p ts)
unfolding finish_forest finish_spec
Below-PathsFrom t nil p h = tt
Below-PathsFrom t (cons (table c cs) rest) p ((_, x), b, h) = (x, Below-PathsFrom t rest p h)

Below-TwoLevels :
    (t : TableSpec) (ts : Forest) (p : ParentKey)
    → t.path ≡ []
    → Below (λ _. Unit) Extends t ts
    → TwoLevels (finish_forest p ts)
unfolding finish_forest finish_spec
Below-TwoLevels t nil p e h = tt
Below-TwoLevels t (cons (table c cs) rest) p e ((_, (seg, x)), b, h) =
    let single : c.path ≡ seg ∷ [] = x ∙ ap (λ l. l ++ (seg ∷ [])) e in
    (
      (
        seg,
        single,
        subst (λ l. PathsFrom l (finish_forest (own_key (finish_spec p c)) cs)) single
            (Below-PathsFrom c cs (own_key (finish_spec p c)) b),
      ),
      Below-TwoLevels t rest p e h,
    )

Planned-paths :
    (doc : Document) (fuel : ℕ) (s : Ptr) (t : TableSpec) (planned : Tree)
    → t.path ≡ []
    → plan_node doc fuel [] [] s (table t nil) ≡ ok planned
    → Planned (λ _. Unit) Extends (λ c. c.path ≡ []) planned
Planned-paths doc fuel s t planned h ran =
    Holds-ok (Planned (λ _. Unit) Extends K) _ planned
      (plan_node-Holds (λ _. Unit) Extends (λ n ty c e. tt)
        (λ n ty c d e. unfold add_model_column in ground arith)
        (λ n ty c d e. unfold add_model_column in ground arith)
        (λ c p g i d v. (tt, (to_snake g, refl))) doc fuel [] K K-add [] s (table t nil) (h, tt))
      ran
  where
    K : TableSpec → Type 0
    K c = c.path ≡ []

    K-add : Stays K
    K-add n ty c e = unfold add_model_column in ground arith

plan-TwoLevels :
    (fuel : ℕ) (unmarshal : Text → Option Document) (schema_doc table_name pk : Text)
    (headers : List (Text × Text)) (m : Model)
    → plan fuel unmarshal schema_doc table_name pk headers ≡ ok m
    → TwoLevels (arrays m.tree)
plan-TwoLevels fuel unmarshal schema_doc table_name pk headers m h =
    let r = plan-IsResult fuel unmarshal schema_doc table_name pk headers m h in
    rw r.tree_finished
      (at_tree r.planned (Planned-paths m.doc fuel (some m.doc.root) _ r.planned refl r.ran))
  where
    at_tree :
        (planned : Tree)
        → Planned (λ _. Unit) Extends (λ c. c.path ≡ []) planned
        → TwoLevels (arrays (with_key pk (pk_type pk (spec planned).columns []) planned))
    at_tree (table t ts) (e, b) = unfold with_key in Below-TwoLevels t ts _ e b

-- The rows of nested arrays are lost: for every model that Plan returned and every document whose
-- array items have no entry under their own array's key, the rows rendered are those of the tables
-- of the root's arrays alone, whatever the items hold in arrays of their own.
pub nested_rows_lost :
    (fuel : ℕ) (unmarshal : Text → Option Document) (schema_doc table_name pk : Text)
    (headers : List (Text × Text)) (m : Model) (value : Json) (key : List Text) (out : List Stmt)
    → plan fuel unmarshal schema_doc table_name pk headers ≡ ok m
    → NoSelfKeys value (arrays m.tree)
    → render_children m (arrays m.tree) value key out
      ≡ render_children m (first_level (arrays m.tree)) value key out
nested_rows_lost fuel unmarshal schema_doc table_name pk headers m value key out h lack =
    first_level_rows m value key (arrays m.tree) out
      (plan-TwoLevels fuel unmarshal schema_doc table_name pk headers m h) lack
