-- ===== src/Json.antt =====
-- The values that encoding/json decodes a document into, and json.Marshal of such a value.
-- A float64 is the decimal number that is its shortest representation.
use schema_to_table.Prelude.{
  ℕ, zero, suc, ◌+◌, ◌-◌, ◌*◌, ◌/◌, ◌%◌, ◌^◌, Bool, true, false, ◌||◌, none, some, List, [], ◌∷◌,
  ◌++◌, length, leb, ltb, ◌==◌, if◌then◌else◌,
}
use schema_to_table.Text.{Text, codes, join}
use schema_to_table.Maps.{lookup}
use schema_to_table.Schema.Names.{hex_digits, sorted_keys}

-- mantissa / 10 ^ scale, with a sign; a mantissa that ends in 0 has the scale 0.
pub record Decimal : Type 0 where
  pub negative : Bool
  pub mantissa : ℕ
  pub scale : ℕ

mutual
  pub data Json : Type 0 where
    null : Json
    bool : Bool → Json
    num : Decimal → Json
    str : Text → Json
    arr : Items → Json
    obj : Fields → Json

  pub data Items : Type 0 where
    nil : Items
    cons : Json → Items → Items

  -- the entries of a map, with different keys
  pub data Fields : Type 0 where
    end : Fields
    field : Text → Json → Fields → Fields

unfoldable pub items_list : Items → List Json
items_list nil = []
items_list (cons x xs) = x ∷ items_list xs

unfoldable pub fields_list : Fields → List (Text × Json)
fields_list end = []
fields_list (field k v fs) = (k, v) ∷ fields_list fs

digits : ℕ → ℕ → Text → Text
digits zero n acc = acc
digits (suc fuel) n acc =
    let more = digits fuel (n / 10) ((b'0' + n % 10) ∷ acc) in
    if ltb n 10 then (b'0' + n) ∷ acc else more

-- The decimal digits of a number. It has at most n + 1 of them.
unfoldable pub show : ℕ → Text
unfolding digits
show n = digits (suc n) n []

sign : Decimal → Text
sign d = if d.negative then codes "-" else []

zeros : ℕ → Text
zeros zero = []
zeros (suc n) = b'0' ∷ zeros n

-- strconv.FormatFloat(val, 'f', -1, 64)
unfoldable pub format_float : Decimal → Text
unfolding show sign zeros
format_float d =
    let whole = show (d.mantissa / 10 ^ d.scale) in
    let part = show (d.mantissa % 10 ^ d.scale) in
    sign d
    ++ (if d.scale == 0
        then whole
        else whole ++ (codes "." ++ (zeros (d.scale - length part) ++ part)))

-- strconv.FormatInt(int64(val), 10), of a value in the range of int64
unfoldable pub format_int : Decimal → Text
unfolding show sign
format_int d =
    let whole = d.mantissa / 10 ^ d.scale in if whole == 0 then codes "0" else sign d ++ show whole

trim_zeros : Text → Text
trim_zeros [] = []
trim_zeros (c ∷ s) = elim (trim_zeros s) [
  | [] ↦ if c == b'0' then [] else c ∷ []
  | d ∷ r ↦ c ∷ d ∷ r
]

mantissa_text : Text → Text
mantissa_text [] = []
mantissa_text (c ∷ []) = c ∷ []
mantissa_text (c ∷ d ∷ s) = c ∷ b'.' ∷ d ∷ s

-- encoding/json writes very small and very large numbers with an exponent.
json_float : Decimal → Text
unfolding format_float trim_zeros mantissa_text
json_float d =
    let all = show d.mantissa in
    let point = length all in
    let plain = format_float d in
    let tail = sign d ++ mantissa_text (trim_zeros all) in
    let small = tail ++ (codes "e-" ++ show (d.scale + 1 - point)) in
    let large = tail ++ (codes "e+" ++ show (point - 1 - d.scale)) in
    if d.mantissa == 0
    then plain
    else if ltb (d.mantissa * 10 ^ 6) (10 ^ d.scale)
    then small
    else if leb (10 ^ 21 * 10 ^ d.scale) d.mantissa
    then large
    else plain

escape_char : ℕ → Text
unfolding hex_digits
escape_char c =
    if c == b'"' || c == b'\\'
    then b'\\' ∷ c ∷ []
    else if c == 8
    then codes "\\b"
    else if c == 12
    then codes "\\f"
    else if c == 10
    then codes "\\n"
    else if c == 13
    then codes "\\r"
    else if c == 9
    then codes "\\t"
    else if ltb c 32 || c == b'<' || c == b'>' || c == b'&' || c == 0x2028 || c == 0x2029
    then codes "\\u" ++ hex_digits 4 c
    else c ∷ []

escape_text : Text → Text
unfolding escape_char
escape_text [] = []
escape_text (c ∷ s) = escape_char c ++ escape_text s

json_string : Text → Text
unfolding escape_text
json_string s = codes "\"" ++ (escape_text s ++ codes "\"")

entry : List (Text × Text) → Text → Text
unfolding json_string lookup
entry m k = json_string k ++ (codes ":" ++ elim (lookup k m) [ none ↦ codes "null" | some v ↦ v ])

entries : List (Text × Text) → List Text → List Text
unfolding entry
entries m [] = []
entries m (k ∷ ks) = entry m k ∷ entries m ks

-- json.Marshal; the keys of a map are written in ascending order
unfoldable mutual
  unfolding json_float entries sorted_keys join

  pub marshal : Json → Text
  marshal null = codes "null"
  marshal (bool true) = codes "true"
  marshal (bool false) = codes "false"
  marshal (num d) = json_float d
  marshal (str s) = json_string s
  marshal (arr xs) = codes "[" ++ (join (codes ",") (marshal_items xs) ++ codes "]")
  marshal (obj fs) =
      let m = marshal_fields fs in
      codes "{" ++ (join (codes ",") (entries m (sorted_keys m)) ++ codes "}")

  marshal_items : Items → List Text
  marshal_items nil = []
  marshal_items (cons x xs) = marshal x ∷ marshal_items xs

  marshal_fields : Fields → List (Text × Text)
  marshal_fields end = []
  marshal_fields (field k v fs) = (k, marshal v) ∷ marshal_fields fs
