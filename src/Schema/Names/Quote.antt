-- ===== src/Schema/Names/Quote.antt =====
-- QuoteLiteral and QuoteIdent against a reader of quoted SQL tokens.
use schema_to_table.Prelude.{
  ℕ, ◌≡◌, refl, Bool, true, false, Option, none, some, [], ◌∷◌, ◌++◌, append_assoc, ◌==◌,
  if◌then◌else◌, ==_iff, Bool-cases, inl, inr,
}
use schema_to_table.Text.{Text, double}
use schema_to_table.Schema.Names.{ident_name, quote_ident, quote_literal}

abbrev push : ℕ → Option (Text × Text) → Option (Text × Text)
push c none = none
push c (some (s, rest)) = some (c ∷ s, rest)

-- How SQL reads a token after its opening quote q: two quotes stand for one, and one ends the
-- token. `seen` holds after a first quote. The result is the token's content and what follows.
scan : ℕ → Bool → Text → Option (Text × Text)
scan q true [] = some ([], [])
scan q false [] = none
scan q true (c ∷ s) =
    let more = push q (scan q false s) in if c == q then more else some ([], c ∷ s)
scan q false (c ∷ s) =
    let ends = scan q true s in let more = push c (scan q false s) in if c == q then ends else more

unfoldable pub read_quoted : ℕ → Text → Option (Text × Text)
unfolding scan
read_quoted q [] = none
read_quoted q (c ∷ s) = let token = scan q false s in if c == q then token else none

-- What follows a token does not begin with its quote.
abbrev pub Follows : ℕ → Text → Type 0
Follows q [] = Unit
Follows q (c ∷ s) = (c == q) ≡ false

scan_end : (q : ℕ) (rest : Text) → Follows q rest → scan q true rest ≡ some ([], rest)
unfolding scan
scan_end q [] h = refl
scan_end q (c ∷ rest) h = rw h

scan_pair : (q : ℕ) (t : Text) → scan q false (q ∷ q ∷ t) ≡ push q (scan q false t)
unfolding scan
scan_pair q t = rw ((==_iff q q).1 refl)

scan_plain :
    (q c : ℕ) (t : Text) → (c == q) ≡ false → scan q false (c ∷ t) ≡ push c (scan q false t)
unfolding scan
scan_plain q c t h = rw h

double_quote : (q : ℕ) (s : Text) → double q (q ∷ s) ≡ q ∷ q ∷ double q s
unfolding double
double_quote q s = rw ((==_iff q q).1 refl)

double_plain : (q c : ℕ) (s : Text) → (c == q) ≡ false → double q (c ∷ s) ≡ c ∷ double q s
unfolding double
double_plain q c s h = rw h

module _ (q : ℕ) (rest : Text) (h : Follows q rest) where
  scan-double_step :
      (c : ℕ) (s : Text)
      → scan q false (double q s ++ (q ∷ rest)) ≡ some (s, rest)
      → scan q false (double q (c ∷ s) ++ (q ∷ rest)) ≡ some (c ∷ s, rest)
  scan-double_step c s ih = elim (Bool-cases (c == q)) [
    | inl e ↦ rw ((==_iff c q).0 e, double_quote, scan_pair, ih)
    | inr e ↦ rw (double_plain q c s e, scan_plain q c (double q s ++ (q ∷ rest)) e, ih)
  ]

  scan-double : (s : Text) → scan q false (double q s ++ (q ∷ rest)) ≡ some (s, rest)
  scan-double [] = scan-nil
    where
      scan-nil : scan q false (double q [] ++ (q ∷ rest)) ≡ some ([], rest)
      scan-nil = unfold scan double in rw ((==_iff q q).1 refl, scan) (scan_end q rest h)
  scan-double (c ∷ s) = scan-double_step c s (scan-double s)

-- SQL reads a literal that QuoteLiteral wrote back as the very text, whatever it holds, and goes on
-- with what follows it, where that begins with no quote.
pub read_quoted-quote_literal :
    (s rest : Text)
    → Follows b'\'' rest
    → read_quoted b'\'' (quote_literal s ++ rest) ≡ some (s, rest)
unfolding read_quoted quote_literal
read_quoted-quote_literal s rest h =
    rw (append_assoc (double b'\'' s) (b'\'' ∷ []) rest) (scan-double b'\'' rest h s)

-- SQL reads an identifier that QuoteIdent wrote back as the name that IdentName gives, and goes on
-- with what follows it, where that begins with no double quote.
pub read_quoted-quote_ident :
    (name rest : Text)
    → Follows b'"' rest
    → read_quoted b'"' (quote_ident name ++ rest) ≡ some (ident_name name, rest)
unfolding read_quoted quote_ident
read_quoted-quote_ident name rest h =
    rw (append_assoc (double b'"' (ident_name name)) (b'"' ∷ []) rest)
      (scan-double b'"' rest h (ident_name name))
