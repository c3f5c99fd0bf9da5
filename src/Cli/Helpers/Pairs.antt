-- ===== src/Cli/Helpers/Pairs.antt =====
-- parseKV reads back the pairs that are written as its flags are.
use schema_to_table.Prelude.{
  ◌≡◌, refl, ◌∙◌, ap, false, ◌||◌, some, List, [], ◌∷◌, ◌++◌, append_assoc, append-nil, map, All,
  arith,
}
use schema_to_table.Text.{Text, codes, is_empty, is_space, trim_space, join}
use schema_to_table.Text.Equality.{same, same_iff, contains, Distinct}
use schema_to_table.Text.Split.{split, cut}
use schema_to_table.Text.Split.Laws.{
  Without, Without-append, split-join, cut-append, StartsSolid, EndsSolid, EndsSolid-append,
  trim_space_solid,
}
use schema_to_table.Maps.{keys, put}
use schema_to_table.Outcome.{ok, each}
use schema_to_table.Cli.Helpers.{put_pair, parse_kv}

-- One pair as it is written in a flag.
abbrev pub pair_text : Text × Text → Text
pair_text (k, v) = k ++ (b'=' ∷ v)

-- A key and a value that a flag can hold: no comma, no space at the ends, and a key that is not empty
-- and has no equals sign.
abbrev pub IsPair : Text × Text → Type 0
IsPair ([], v) = ⊥
IsPair (c ∷ k, v) =
    Without b'=' (c ∷ k)
    × Without b',' (c ∷ k)
    × Without b',' v
    × StartsSolid (c ∷ k)
    × EndsSolid (c ∷ k)
    × StartsSolid v
    × EndsSolid v

put_new :
    (k v : Text) (m : List (Text × Text))
    → contains (keys m) k ≡ false
    → put k v m ≡ m ++ ((k, v) ∷ [])
unfolding put contains
put_new k v [] h = refl
put_new k v ((j, w) ∷ m) h = ground (arith, put_new k v m)

put_pair-cut :
    (pair k v : Text) (m : List (Text × Text))
    → cut b'=' pair ≡ some (k, v)
    → is_empty (trim_space k) ≡ false
    → put_pair pair m ≡ ok (put (trim_space k) (trim_space v) m)
unfolding put_pair
put_pair-cut pair k v m e f = ground arith

put_pair_lem :
    (k v : Text) (m : List (Text × Text))
    → IsPair (k, v)
    → contains (keys m) k ≡ false
    → put_pair (pair_text (k, v)) m ≡ ok (m ++ ((k, v) ∷ []))
put_pair_lem [] v m p h = elim p [ ]
put_pair_lem (c ∷ k) v m (eq, comma, vcomma, ks, ke, vs, ve) h =
    let trimmed = trim_space_solid (c ∷ k) ks ke in
    put_pair-cut (pair_text (c ∷ k, v)) (c ∷ k) v m (cut-append b'=' (c ∷ k) v eq) (rw trimmed refl)
    ∙ rw (trimmed, trim_space_solid v vs ve, put_new (c ∷ k) v m h) refl

-- The keys are new to a map.
abbrev New : List (Text × Text) → List (Text × Text) → Type 0
New m [] = Unit
New m ((k, v) ∷ l) = (contains (keys m) k ≡ false) × New m l

contains-keys-snoc :
    (m : List (Text × Text)) (k v j : Text)
    → contains (keys (m ++ ((k, v) ∷ []))) j ≡ (contains (keys m) j || same k j)
unfolding contains
contains-keys-snoc [] k v j = ground arith
contains-keys-snoc ((i, w) ∷ m) k v j = ground (arith, contains-keys-snoc m k v j)

New-snoc :
    (m : List (Text × Text)) (k v : Text) (l : List (Text × Text))
    → contains (keys l) k ≡ false
    → New m l
    → New (m ++ ((k, v) ∷ [])) l
unfolding contains
New-snoc m k v [] h n = tt
New-snoc m k v ((j, w) ∷ l) h (e, n) = (
  rw contains-keys-snoc (ground (arith, same_iff j k, same_iff k j)),
  New-snoc m k v l (ground arith) n,
)

each-put_pair :
    (l m : List (Text × Text))
    → All IsPair l
    → Distinct (keys l)
    → New m l
    → each put_pair (map pair_text l) m ≡ ok (m ++ l)
unfolding each
each-put_pair [] m a d n = rw (append-nil m) refl
each-put_pair ((k, v) ∷ l) m (p, a) (fresh, d) (new, n) =
    rw
      (
        put_pair_lem k v m p new,
        each-put_pair l (m ++ ((k, v) ∷ [])) a d (New-snoc m k v l fresh n),
      )
      (ap ok (append_assoc m ((k, v) ∷ []) l))

Without-pair : (p : Text × Text) → IsPair p → Without b',' (pair_text p)
Without-pair ([], v) h = elim h [ ]
Without-pair (c ∷ k, v) (eq, comma, vcomma, ks, ke, vs, ve) =
    Without-append b',' (c ∷ k) (b'=' ∷ v) comma (refl, vcomma)

All-Without : (l : List (Text × Text)) → All IsPair l → All (Without b',') (map pair_text l)
All-Without [] a = tt
All-Without (p ∷ l) (h, a) = (Without-pair p h, All-Without l a)

EndsSolid-pair : (k v : Text) → EndsSolid v → EndsSolid (k ++ (b'=' ∷ v))
EndsSolid-pair k [] h = EndsSolid-append k b'=' [] (unfold is_space in refl)
EndsSolid-pair k (d ∷ v) h = EndsSolid-append k b'=' (d ∷ v) h

New-nil : (l : List (Text × Text)) → New [] l
unfolding contains
New-nil [] = tt
New-nil ((k, v) ∷ l) = (refl, New-nil l)

StartsSolid-join :
    (p : Text × Text) (l : List (Text × Text))
    → IsPair p
    → StartsSolid (join (codes ",") (map pair_text (p ∷ l)))
unfolding join
StartsSolid-join ([], v) l h = elim h [ ]
StartsSolid-join (c ∷ k, v) [] (eq, comma, vcomma, ks, ke, vs, ve) = ks
StartsSolid-join (c ∷ k, v) (q ∷ l) (eq, comma, vcomma, ks, ke, vs, ve) = ks

EndsSolid-comma : (s : Text) → EndsSolid s → EndsSolid (b',' ∷ s)
EndsSolid-comma [] h = unfold is_space in refl
EndsSolid-comma (c ∷ s) h = h

EndsSolid-join :
    (p : Text × Text) (l : List (Text × Text))
    → All IsPair (p ∷ l)
    → EndsSolid (join (codes ",") (map pair_text (p ∷ l)))
unfolding join
EndsSolid-join ([], v) l (h, a) = elim h [ ]
EndsSolid-join (c ∷ k, v) [] ((eq, comma, vcomma, ks, ke, vs, ve), a) = EndsSolid-pair (c ∷ k) v ve
EndsSolid-join (c ∷ k, v) (q ∷ l) (h, a) =
    EndsSolid-append (pair_text (c ∷ k, v)) b',' (join (codes ",") (map pair_text (q ∷ l)))
      (EndsSolid-comma (join (codes ",") (map pair_text (q ∷ l))) (EndsSolid-join q l a))

parse_kv_pairs :
    (s : Text) (pairs : List Text)
    → is_empty s ≡ false
    → trim_space s ≡ s
    → split b',' s ≡ pairs
    → parse_kv s ≡ each put_pair pairs []
unfolding parse_kv
parse_kv_pairs s pairs e t h = rw (t, e, h) refl

join_nonempty :
    (p : Text × Text) (l : List (Text × Text))
    → IsPair p
    → is_empty (join (codes ",") (map pair_text (p ∷ l))) ≡ false
unfolding join
join_nonempty ([], v) l h = elim h [ ]
join_nonempty (c ∷ k, v) [] h = refl
join_nonempty (c ∷ k, v) (q ∷ l) h = refl

-- parseKV gives back every map whose keys are different and whose keys and values a flag can hold,
-- from the pairs written as key=value with commas between them.
pub parse_kv-join :
    (m : List (Text × Text))
    → All IsPair m
    → Distinct (keys m)
    → parse_kv (join (codes ",") (map pair_text m)) ≡ ok m
parse_kv-join [] a d = unfold parse_kv join trim_space in refl
parse_kv-join (p ∷ l) (h, a) d =
    parse_kv_pairs _ (map pair_text (p ∷ l)) (join_nonempty p l h)
      (trim_space_solid _ (StartsSolid-join p l h) (EndsSolid-join p l (h, a)))
      (split-join b',' (pair_text p) (map pair_text l) (All-Without (p ∷ l) (h, a)))
    ∙ each-put_pair (p ∷ l) [] (h, a) d (New-nil (p ∷ l))
