-- ===== src/Schema/Names/Sanitize.antt =====
-- What SanitizeIdent and IdentName return.
use schema_to_table.Prelude.{
  ℕ, zero, suc, ◌≤◌, ◌<◌, ◌%◌, ◌/◌, ◌≡◌, refl, ◌⊎◌, inl, inr, Bool, true, false, [], ◌∷◌, ◌++◌,
  length, take, length-append, length-take, All, All-append, All-take, arith, ap,
}
use schema_to_table.Text.{Text, codes, lower, to_lower}
use schema_to_table.Schema.Names.{
  is_ident, replace_runs, sanitize_ident, fnv, hex_digit, hex_digits, name_hash, ident_name,
}

-- `c` is in the class [a-z0-9_].
abbrev pub IsIdent : ℕ → Type 0
IsIdent c = is_ident c ≡ true

replace_runs-IsIdent : (inside : Bool) (s : Text) → All IsIdent (replace_runs inside s)
unfolding replace_runs
replace_runs-IsIdent inside [] = tt
replace_runs-IsIdent inside (c ∷ s) =
    ground (arith, replace_runs-IsIdent true s, replace_runs-IsIdent false s)

pub sanitize_ident-IsIdent : (name : Text) → All IsIdent (sanitize_ident name)
unfolding sanitize_ident
sanitize_ident-IsIdent name = replace_runs-IsIdent false (to_lower name)

lower-IsIdent : (c : ℕ) → IsIdent c → lower c ≡ c
unfolding is_ident lower
lower-IsIdent c h = ground arith

to_lower_clean : (s : Text) → All IsIdent s → to_lower s ≡ s
unfolding to_lower
to_lower_clean [] h = refl
to_lower_clean (c ∷ s) (hc, h) = cc (lower-IsIdent c hc, to_lower_clean s h)

replace_runs_clean : (inside : Bool) (s : Text) → All IsIdent s → replace_runs inside s ≡ s
unfolding replace_runs
replace_runs_clean inside [] h = refl
replace_runs_clean inside (c ∷ s) (hc, h) = ground (arith, replace_runs_clean false s h)

-- A name of identifier characters only is left as it is.
pub sanitize_ident_clean : (s : Text) → All IsIdent s → sanitize_ident s ≡ s
unfolding sanitize_ident
sanitize_ident_clean s h = rw (to_lower_clean s h) (replace_runs_clean false s h)

-- Sanitizing a second time changes nothing.
pub sanitize_ident_idem : (name : Text) → sanitize_ident (sanitize_ident name) ≡ sanitize_ident name
sanitize_ident_idem name = sanitize_ident_clean _ (sanitize_ident-IsIdent name)

hex_digit-IsIdent : (d : ℕ) → d < 16 → IsIdent (hex_digit d)
unfolding hex_digit is_ident
hex_digit-IsIdent d h = ground arith

hex_digits-IsIdent : (k n : ℕ) → All IsIdent (hex_digits k n)
unfolding hex_digits
hex_digits-IsIdent zero n = tt
hex_digits-IsIdent (suc k) n =
    All-append IsIdent (hex_digits k (n / 16)) _ (hex_digits-IsIdent k (n / 16))
      (hex_digit-IsIdent (n % 16) (omega arith), tt)

length-hex_digits : (k n : ℕ) → length (hex_digits k n) ≡ k
unfolding hex_digits
length-hex_digits zero n = refl
length-hex_digits (suc k) n = omega (
  arith,
  length-append (hex_digits k (n / 16)) (hex_digit (n % 16) ∷ []),
  length-hex_digits k (n / 16),
)

name_hash-IsIdent : (s : Text) → All IsIdent (name_hash s)
unfolding name_hash
name_hash-IsIdent s =
    All-take IsIdent 8 (hex_digits 8 (fnv 2166136261 s)) (hex_digits-IsIdent 8 (fnv 2166136261 s))

length-name_hash : (s : Text) → length (name_hash s) ≡ 8
unfolding name_hash
length-name_hash s =
    omega (
      arith,
      length-take 8 (hex_digits 8 (fnv 2166136261 s)),
      length-hex_digits 8 (fnv 2166136261 s),
    )

abbrev shorten : Text → Text
shorten s = take 54 s ++ (codes "_" ++ name_hash s)

shorten-IsIdent : (s : Text) → All IsIdent s → All IsIdent (shorten s)
unfolding is_ident
shorten-IsIdent s h =
    All-append IsIdent (take 54 s) _ (All-take IsIdent 54 s h) (refl, name_hash-IsIdent s)

length-shorten : (s : Text) → 63 < length s → length (shorten s) ≡ 63
length-shorten s h = omega (
  arith,
  length-append (take 54 s) (codes "_" ++ name_hash s),
  length-take 54 s,
  length-name_hash s,
)

-- The two cases of IdentName over the sanitized name.
ident_name-cases :
    (name : Text)
    → ((length (sanitize_ident name) ≤ 63) × (ident_name name ≡ sanitize_ident name))
      ⊎ ((63 < length (sanitize_ident name)) × (ident_name name ≡ shorten (sanitize_ident name)))
unfolding ident_name
ident_name-cases name = ground arith

-- IdentName returns at most 63 characters, all of the class [a-z0-9_].
pub ident_name_bounds :
    (name : Text) → (length (ident_name name) ≤ 63) × All IsIdent (ident_name name)
ident_name_bounds name = elim (ident_name-cases name) [
  | inl (le, e) ↦ rw e (le, sanitize_ident-IsIdent name)
  | inr (gt, e) ↦ rw e (
    omega (arith, length-shorten (sanitize_ident name) gt),
    shorten-IsIdent (sanitize_ident name) (sanitize_ident-IsIdent name),
  )
]

ident_name_short : (s : Text) → length s ≤ 63 → All IsIdent s → ident_name s ≡ s
ident_name_short s le h = elim (ident_name-cases s) [
  | inl (_, e) ↦ rw e (sanitize_ident_clean s h)
  | inr (gt, _) ↦ absurd (omega (arith, ap length (sanitize_ident_clean s h)))
]

-- The name that IdentName gives is its own name: the DDL, the DML and the registry, which quote it
-- anew, speak of one identifier.
pub ident_name_idem : (name : Text) → ident_name (ident_name name) ≡ ident_name name
ident_name_idem name =
    ident_name_short (ident_name name) (ident_name_bounds name).0 (ident_name_bounds name).1
