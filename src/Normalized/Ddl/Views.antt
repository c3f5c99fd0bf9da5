-- ===== src/Normalized/Ddl/Views.antt =====
-- The columns that rootChildView gives to a view.
use schema_to_table.Prelude.{◌≡◌, false, List, ◌++◌, All}
use schema_to_table.Text.{Text, codes}
use schema_to_table.Text.Equality.{contains}
use schema_to_table.Schema.Names.{ident_name}

-- A child's column behind the child's segment.
abbrev pub prefixed : Text → Text → Text
prefixed segment c = segment ++ (codes "_" ++ c)

-- No text of the list is used.
abbrev Unused : List Text → List Text → Type 0
Unused used outs = All (λ o. contains used o ≡ false) outs

-- No column behind the segment has a used name.
abbrev pub NoPrefixed : Text → List Text → List Text → Type 0
NoPrefixed segment used cols = All (λ c. contains used (prefixed segment c) ≡ false) cols

-- Every name is its own identifier.
abbrev pub Clean : List Text → Type 0
Clean cols = All (λ c. ident_name c ≡ c) cols
