-- ===== src/Normalized/Consts.antt =====
-- internal/normalized/model.go: detectDiscriminator and collectConsts. The recursion of
-- collectConsts has no guard against cycles, and takes fuel.
pub mod Shared
use schema_to_table.Prelude.{
  ℕ, zero, suc, Bool, true, false, ◌&&◌, Option, none, some, List, [], ◌∷◌, ◌++◌, map,
  if◌then◌else◌,
}
use schema_to_table.Text.{Text}
use schema_to_table.Text.Equality.{contains}
use schema_to_table.Maps.{keys, put}
use schema_to_table.Json.{Json}
use schema_to_table.Outcome.{Outcome, ok, diverge, ◌>>=◌, each}
use schema_to_table.Schema.Names.{sorted_keys}
use schema_to_table.Schema.Node.{Node, Ptr, Document, deref, resolve}
use schema_to_table.Schema.Types.{unmarshal_text}

-- map[string]string
abbrev pub Consts : Type 0
Consts = List (Text × Text)

-- `json.Unmarshal(prop.Const, &cst)` into a string, and the entry if it succeeds
const_entry : Text → Option Json → Consts → Consts
unfolding unmarshal_text
const_entry key none out = out
const_entry key (some raw) out =
    if contains (keys out) key
    then out
    else elim (unmarshal_text raw) [ none ↦ out | some cst ↦ put key cst out ]

unfoldable pub in_all : Text → List Consts → Bool
in_all key [] = true
in_all key (consts ∷ rest) = contains (keys consts) key && in_all key rest

unfoldable pub first_shared : List Text → List Consts → Text
unfolding in_all
first_shared [] variants = []
first_shared (key ∷ ks) variants = if in_all key variants then key else first_shared ks variants

-- The first key, in ascending order, that every variant declares as a constant; "" if none.
unfoldable pub discriminator : List Consts → Text
unfolding first_shared
discriminator [] = []
discriminator (consts ∷ rest) = first_shared (sorted_keys consts) (consts ∷ rest)

module _ (doc : Document) where
  -- One round of the loop over the properties.
  unfoldable pub collect_const : Text × Ptr → Consts → Outcome Consts
  unfolding const_entry
  collect_const (key, prop) out = do n ← deref doc prop; ok (const_entry key n.const out)

  -- collectConsts
  unfoldable pub collect_consts : ℕ → Ptr → Consts → Outcome Consts
  unfolding collect_const
  collect_consts zero s out = diverge
  collect_consts (suc fuel) none out = ok out
  collect_consts (suc fuel) (some i) out = do
    resolved ← resolve doc (some i)
    n ← deref doc resolved
    out' ← each (collect_consts fuel) n.all_of out
    each collect_const n.properties out'

  unfoldable pub variant_consts : ℕ → List Ptr → Outcome (List Consts)
  unfolding collect_consts
  variant_consts fuel [] = ok []
  variant_consts fuel (v ∷ vs) = do
    consts ← collect_consts fuel v []
    rest ← variant_consts fuel vs
    ok (consts ∷ rest)

  -- detectDiscriminator
  unfoldable pub detect_discriminator : ℕ → List Ptr → Outcome Text
  unfolding variant_consts discriminator
  detect_discriminator fuel variants = do
    consts ← variant_consts fuel variants
    ok (discriminator consts)
