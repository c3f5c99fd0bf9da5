-- ===== src/Cli/Exec/Quoted.antt =====
-- The quoted names of the drops and those of the statements that create.
use mathlib.Core.List.{append_cancel_left, append_cancel_right}
use schema_to_table.Prelude.{◌≡◌, ◌↔◌, refl, sym, ◌∙◌, ap, [], ◌∷◌, ◌++◌, All, arith}
use schema_to_table.Text.{Text, codes, concat, double}
use schema_to_table.Schema.Names.{is_ident, ident_name, quote_ident}
use schema_to_table.Schema.Names.Sanitize.{IsIdent, ident_name_bounds}
use schema_to_table.Cli.Exec.{drop_table}

double-IsIdent : (s : Text) → All IsIdent s → double b'"' s ≡ s
unfolding double is_ident
double-IsIdent [] h = refl
double-IsIdent (c ∷ s) (i, h) = ground (arith, double-IsIdent s h)

quote_ident-eq : (name : Text) → quote_ident name ≡ codes "\"" ++ (ident_name name ++ codes "\"")
unfolding quote_ident
quote_ident-eq name = rw (double-IsIdent (ident_name name) (ident_name_bounds name).1) refl

-- DROP TABLE for a quoted name.
abbrev pub drop_of : Text → Text
drop_of quoted = concat (codes "DROP TABLE IF EXISTS " ∷ quoted ∷ codes " CASCADE" ∷ [])

drop_of_inj : (q r : Text) → drop_of q ≡ drop_of r → q ≡ r
unfolding concat
drop_of_inj q r h =
    append_cancel_right q r _ (append_cancel_left (codes "DROP TABLE IF EXISTS ") _ _ h)

-- If %q puts the name between double quotes unchanged, then the drop of a table is a drop of the
-- table that CREATE TABLE makes for the same name just when IdentName leaves the name as it is. A
-- table whose name has an upper-case letter, or a character that is replaced, or more than 63
-- characters, is not dropped under the name under which it was created.
pub drop_table-quote_ident :
    (quote : Text → Text) (label name : Text)
    → quote name ≡ codes "\"" ++ (name ++ codes "\"")
    → ((drop_table quote label name).sql ≡ drop_of (quote_ident name)) ↔ (ident_name name ≡ name)
unfolding drop_table
drop_table-quote_ident quote label name q = (
  λ h. sym (
      append_cancel_right name (ident_name name) (codes "\"")
        (append_cancel_left (codes "\"") _ _ (sym q ∙ (drop_of_inj _ _ h ∙ quote_ident-eq name)))),
  λ e.
      ap drop_of
        (q ∙ (ap (λ n. codes "\"" ++ (n ++ codes "\"")) (sym e) ∙ sym (quote_ident-eq name))),
)
