-- ===== src/Text/Split.antt =====
-- Cutting texts: strings.Split and strings.Cut at one character, HasSuffix and TrimPrefix.
pub mod Laws
use schema_to_table.Prelude.{
  ℕ, Bool, true, false, Option, none, some, List, [], ◌∷◌, length, drop, ◌==◌, if◌then◌else◌,
}
use schema_to_table.Text.{Text, has_prefix}
use schema_to_table.Text.Equality.{same}

-- Put a character in front of the first part.
unfoldable pub onto_first : ℕ → List Text → List Text
onto_first c [] = (c ∷ []) ∷ []
onto_first c (part ∷ parts) = (c ∷ part) ∷ parts

-- strings.Split(s, sep)
unfoldable pub split : ℕ → Text → List Text
unfolding onto_first
split sep [] = [] ∷ []
split sep (c ∷ s) = let rest = split sep s in if c == sep then [] ∷ rest else onto_first c rest

unfoldable pub onto_cut : ℕ → Option (Text × Text) → Option (Text × Text)
onto_cut c none = none
onto_cut c (some (before, after)) = some (c ∷ before, after)

-- strings.Cut(s, sep); none if the separator is not there
unfoldable pub cut : ℕ → Text → Option (Text × Text)
unfolding onto_cut
cut sep [] = none
cut sep (c ∷ s) = let rest = cut sep s in if c == sep then some ([], s) else onto_cut c rest

-- strings.HasSuffix
unfoldable pub has_suffix : Text → Text → Bool
unfolding same
has_suffix [] suffix = same [] suffix
has_suffix (c ∷ s) suffix = elim (same (c ∷ s) suffix) [ true ↦ true | false ↦ has_suffix s suffix ]

-- strings.TrimPrefix
unfoldable pub trim_prefix : Text → Text → Text
unfolding has_prefix
trim_prefix s prefix = if has_prefix s prefix then drop (length prefix) s else s
