-- ===== src/Normalized/Dml/Listed.antt =====
-- The tables of a tree stand in the list of tables.
use schema_to_table.Prelude.{◌≡◌, refl, ◌⊎◌, inl, inr, List, [], ◌∷◌, ◌++◌, All, subst, sym}
use schema_to_table.Normalized.Model.{TableSpec, Tree, table, Forest, nil, cons, spec, arrays}
use schema_to_table.Normalized.Plan.{table_order, forest_order}

abbrev pub Listed : TableSpec → List TableSpec → Type 0
Listed t [] = ⊥
Listed t (u ∷ tables) = (t ≡ u) ⊎ Listed t tables

pub All-Listed :
    (P : TableSpec → Type 0) (tables : List TableSpec) (t : TableSpec)
    → All P tables
    → Listed t tables
    → P t
All-Listed P [] t a h = elim h [ ]
All-Listed P (u ∷ tables) t (p, a) (inl e) = subst P (sym e) p
All-Listed P (u ∷ tables) t (p, a) (inr h) = All-Listed P tables t a h

Listed-left : (t : TableSpec) (xs ys : List TableSpec) → Listed t xs → Listed t (xs ++ ys)
Listed-left t [] ys h = elim h [ ]
Listed-left t (x ∷ xs) ys (inl e) = inl e
Listed-left t (x ∷ xs) ys (inr h) = inr (Listed-left t xs ys h)

Listed-right : (t : TableSpec) (xs ys : List TableSpec) → Listed t ys → Listed t (xs ++ ys)
Listed-right t [] ys h = h
Listed-right t (x ∷ xs) ys h = inr (Listed-right t xs ys h)

-- Every table of the forest is one of `tables`.
abbrev pub Held : List TableSpec → Forest → Type 0
Held tables nil = Unit
Held tables (cons (table t ts) rest) = Listed t tables × Held tables ts × Held tables rest

forest_order-Held :
    (tables : List TableSpec) (ts : Forest)
    → ((t : TableSpec) → Listed t (forest_order ts) → Listed t tables)
    → Held tables ts
unfolding table_order
forest_order-Held tables nil h = tt
forest_order-Held tables (cons (table t ts) rest) h = (
  h t (inl refl),
  forest_order-Held tables ts (λ u l. h u (inr (Listed-left u (forest_order ts) _ l))),
  forest_order-Held tables rest (λ u l. h u (inr (Listed-right u (forest_order ts) _ l))),
)

pub table_order-Held :
    (t : Tree) → Listed (spec t) (table_order t) × Held (table_order t) (arrays t)
unfolding table_order
table_order-Held (table t ts) =
    (inl refl, forest_order-Held (t ∷ forest_order ts) ts (λ u l. inr l))
