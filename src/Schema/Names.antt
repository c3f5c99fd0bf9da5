-- ===== src/Schema/Names.antt =====
-- internal/schema/names.go: identifiers, literals and sorted keys. The proofs are below.
pub mod Sanitize
pub mod Quote
pub mod Sorted
pub mod Unique
use Prim.Native.Nat.{bit_xor}
use schema_to_table.Prelude.{
  ℕ, zero, suc, ◌+◌, ◌-◌, ◌*◌, ◌/◌, ◌%◌, ◌^◌, Bool, true, false, not, ◌&&◌, ◌||◌, List, [], ◌∷◌,
  ◌++◌, map, length, take, leb, ltb, ◌==◌, if◌then◌else◌,
}
use schema_to_table.Text.{Text, codes, in_range, to_lower, double, text_le}
use schema_to_table.Maps.{keys}

abbrev pub pg_ident_max_len : ℕ
pg_ident_max_len = 63

abbrev pub ident_hash_suffix : ℕ
ident_hash_suffix = 8

-- the class [a-z0-9_]
unfoldable pub is_ident : ℕ → Bool
unfolding in_range
is_ident c = in_range b'a' b'z' c || in_range b'0' b'9' c || c == b'_'

-- the place between the two groups of `camelBoundary`
unfoldable pub is_boundary : ℕ → ℕ → Bool
unfolding in_range
is_boundary c d = (in_range b'a' b'z' c || in_range b'0' b'9' c) && in_range b'A' b'Z' d

-- `camelBoundary.ReplaceAllString`. The second letter of a match is upper case and begins none.
unfoldable pub split_camel : Text → Text
unfolding is_boundary
split_camel [] = []
split_camel (c ∷ []) = c ∷ []
split_camel (c ∷ d ∷ s) =
    let rest = split_camel (d ∷ s) in if is_boundary c d then c ∷ b'_' ∷ rest else c ∷ rest

unfoldable pub to_snake : Text → Text
unfolding split_camel to_lower
to_snake s = to_lower (split_camel s)

-- `identSanitizer.ReplaceAllString(name, "_")`: a run of other characters becomes one underscore.
-- `inside` holds while the last character belongs to such a run.
unfoldable pub replace_runs : Bool → Text → Text
unfolding is_ident
replace_runs inside [] = []
replace_runs inside (c ∷ s) =
    let rest = replace_runs (not (is_ident c)) s in
    if is_ident c then c ∷ rest else if inside then rest else b'_' ∷ rest

unfoldable pub sanitize_ident : Text → Text
unfolding to_lower replace_runs
sanitize_ident name = replace_runs false (to_lower name)

-- hash/fnv, New32a
fnv : ℕ → Text → ℕ
fnv h [] = h
fnv h (c ∷ s) = fnv ((bit_xor h c * 16777619) % 2 ^ 32) s

hex_digit : ℕ → ℕ
hex_digit d = if ltb d 10 then b'0' + d else b'a' + (d - 10)

-- the last k digits in base 16
unfoldable pub hex_digits : ℕ → ℕ → Text
unfolding hex_digit
hex_digits zero n = []
hex_digits (suc k) n = hex_digits k (n / 16) ++ (hex_digit (n % 16) ∷ [])

-- Sprintf("%08x", sum)[:8] of a 32-bit sum
name_hash : Text → Text
unfolding fnv hex_digits
name_hash name = take ident_hash_suffix (hex_digits 8 (fnv 2166136261 name))

-- The length is that of a sanitized name, which is ASCII.
unfoldable pub ident_name : Text → Text
unfolding sanitize_ident name_hash
ident_name name =
    let clean = sanitize_ident name in
    if leb (length clean) pg_ident_max_len
    then clean
    else take (pg_ident_max_len - ident_hash_suffix - 1) clean ++ (codes "_" ++ name_hash clean)

unfoldable pub quote_ident : Text → Text
unfolding ident_name double
quote_ident name = codes "\"" ++ (double b'"' (ident_name name) ++ codes "\"")

unfoldable pub quote_literal : Text → Text
unfolding double
quote_literal s = codes "'" ++ (double b'\'' s ++ codes "'")

-- sort.Strings
unfoldable pub insert_text : Text → List Text → List Text
unfolding text_le
insert_text k [] = k ∷ []
insert_text k (j ∷ l) = if text_le k j then k ∷ j ∷ l else j ∷ insert_text k l

unfoldable pub sort_texts : List Text → List Text
unfolding insert_text
sort_texts [] = []
sort_texts (k ∷ l) = insert_text k (sort_texts l)

unfoldable pub sorted_keys {ℓ} : {V : Type ℓ} → List (Text × V) → List Text
unfolding sort_texts
sorted_keys m = sort_texts (keys m)
