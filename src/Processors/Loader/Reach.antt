-- ===== src/Processors/Loader/Reach.antt =====
-- The states of the schema cache under any interleaving of the locked sections of Load.
use mathlib.Core.Option.{some_inj}
use schema_to_table.Prelude.{
  ℕ, ◌+◌, ◌<◌, ◌≡◌, ◌⊎◌, refl, sym, ap, true, Option, none, some, List, [], ◌∷◌, arith, inl, inr,
  Bool-cases, ltb, ◌==◌, if◌then◌else◌,
}
use schema_to_table.Text.{Text}
use schema_to_table.Text.Equality.{same, same→eq}
use schema_to_table.Maps.{lookup, put}
use schema_to_table.Processors.Loader.{
  CacheEntry, SchemaLoader, new_schema_loader, drop_expired, swept_lately, sweep_locked,
  load_cached, Fetched, count_fetch, store,
}

-- A document that was stored: its URL, its text and the time.
pub record Stored : Type 0 where
  pub url : Text
  pub doc : Text
  pub at : ℕ

-- Among the stores there is one of this URL and document, for which the entry ends after ttl.
pub data WasStored (ttl : ℕ) (url : Text) (e : CacheEntry) : List Stored → Type 0 where
  here :
      {s : Stored} {h : List Stored}
      → s.url ≡ url
      → s.doc ≡ e.doc
      → e.expires_at ≡ s.at + ttl
      → WasStored ttl url e (s ∷ h)
  there : {s : Stored} {h : List Stored} → WasStored ttl url e h → WasStored ttl url e (s ∷ h)

-- The states that are reached by the sections of any number of calls of Load, in any order, with any
-- readings of the clock, and the documents stored on the way.
pub data Reaches (ttl : ℕ) : SchemaLoader → List Stored → Type 0 where
  start : Reaches ttl (new_schema_loader ttl) []
  looked :
      {l l' : SchemaLoader} {h : List Stored} (now sweep_at : ℕ) (url doc : Text)
      → load_cached now sweep_at url l ≡ some (doc, l')
      → Reaches ttl l h
      → Reaches ttl l' h
  fetched :
      {l : SchemaLoader} {h : List Stored} (f : Fetched)
      → Reaches ttl l h
      → Reaches ttl (count_fetch f l) h
  put_away :
      {l : SchemaLoader} {h : List Stored} (now sweep_at : ℕ) (url doc : Text)
      → Reaches ttl l h
      → Reaches ttl (store now sweep_at url doc l) (record { url = url; doc = doc; at = now } ∷ h)

-- Every entry of the cache was stored.
abbrev Backed : ℕ → List Stored → List (Text × CacheEntry) → Type 0
Backed ttl h [] = Unit
Backed ttl h ((u, e) ∷ cache) = WasStored ttl u e h × Backed ttl h cache

Backed-drop_expired :
    (ttl now : ℕ) (h : List Stored) (cache : List (Text × CacheEntry))
    → Backed ttl h cache
    → Backed ttl h (drop_expired now cache)
unfolding drop_expired
Backed-drop_expired ttl now h [] b = tt
Backed-drop_expired ttl now h ((u, e) ∷ cache) (w, b) = elim (Bool-cases (ltb now e.expires_at)) [
  | inl f ↦ rw f (w, Backed-drop_expired ttl now h cache b)
  | inr f ↦ rw f (Backed-drop_expired ttl now h cache b)
]

Backed-there :
    (ttl : ℕ) (s : Stored) (h : List Stored) (cache : List (Text × CacheEntry))
    → Backed ttl h cache
    → Backed ttl (s ∷ h) cache
Backed-there ttl s h [] b = tt
Backed-there ttl s h ((u, e) ∷ cache) (w, b) = (there w, Backed-there ttl s h cache b)

Backed-put :
    (ttl : ℕ) (h : List Stored) (url : Text) (e : CacheEntry) (cache : List (Text × CacheEntry))
    → WasStored ttl url e h
    → Backed ttl h cache
    → Backed ttl h (put url e cache)
unfolding put
Backed-put ttl h url e [] w b = (w, tt)
Backed-put ttl h url e ((u, f) ∷ cache) w (v, b) = elim (Bool-cases (same u url)) [
  | inl x ↦ rw x (w, b)
  | inr x ↦ rw x (v, Backed-put ttl h url e cache w b)
]

Backed-lookup :
    (ttl : ℕ) (h : List Stored) (url : Text) (e : CacheEntry) (cache : List (Text × CacheEntry))
    → Backed ttl h cache
    → lookup url cache ≡ some e
    → WasStored ttl url e h
unfolding lookup
Backed-lookup ttl h url e [] b found = absurd (cc found)
Backed-lookup ttl h url e ((u, f) ∷ cache) (w, b) found = elim (Bool-cases (same u url)) [
  | inl x ↦ rw (← same→eq u url x, ← some_inj.0 (rw x at found)) w
  | inr x ↦ Backed-lookup ttl h url e cache b (rw x at found)
]

-- A state of a loader with the given ttl whose cache is backed.
abbrev Sound : ℕ → List Stored → SchemaLoader → Type 0
Sound ttl h l = (l.ttl ≡ ttl) × Backed ttl h l.cache

sweep_locked-Sound :
    (ttl now : ℕ) (h : List Stored) (l : SchemaLoader)
    → Sound ttl h l
    → Sound ttl h (sweep_locked now l)
unfolding sweep_locked
sweep_locked-Sound ttl now h l (e, b) = elim (Bool-cases (l.ttl == 0)) [
  | inl z ↦ rw z (e, b)
  | inr z ↦ elim (Bool-cases (swept_lately l.ttl now l.last_sweep)) [
    | inl s ↦ rw (z, s) (e, b)
    | inr s ↦ rw (z, s) (e, Backed-drop_expired ttl now h l.cache b)
  ]
]

-- What a hit of load_cached tells.
pub record IsHit (now sweep_at : ℕ) (url doc : Text) (l l' : SchemaLoader) : Type 0 where
  pub entry : CacheEntry
  pub found : lookup url l.cache ≡ some entry
  pub unexpired : ltb now entry.expires_at ≡ true
  pub same_doc : entry.doc ≡ doc
  pub swept :
      l'
      ≡ record (sweep_locked sweep_at l) { cache_hits = (sweep_locked sweep_at l).cache_hits + 1 }

load_cached-IsHit :
    (now sweep_at : ℕ) (url doc : Text) (l l' : SchemaLoader)
    → load_cached now sweep_at url l ≡ some (doc, l')
    → IsHit now sweep_at url doc l l'
unfolding load_cached
load_cached-IsHit now sweep_at url doc l l' h = at_entry (lookup url l.cache) refl h
  where
    swept : SchemaLoader
    swept = record (sweep_locked sweep_at l) {
      cache_hits = (sweep_locked sweep_at l).cache_hits + 1;
    }

    at_entry :
        (o : Option CacheEntry)
        → lookup url l.cache ≡ o
        → (let served : Text × SchemaLoader = (doc, l') in
            elim o [
              | none ↦ none
              | some e ↦ if ltb now e.expires_at then some (e.doc, swept) else none
            ]
            ≡ some served)
        → IsHit now sweep_at url doc l l'
    at_entry none e f = absurd (cc f)
    at_entry (some x) e f = elim (Bool-cases (ltb now x.expires_at)) [
      | inl t ↦ record {
        entry = x;
        found = e;
        unexpired = t;
        same_doc = ap (λ p. p.0) (some_inj.0 (rw t at f));
        swept = sym (ap (λ p. p.1) (some_inj.0 (rw t at f)));
      }
      | inr t ↦ absurd (cc (rw t at f))
    ]

Reaches-Sound : (ttl : ℕ) (l : SchemaLoader) (h : List Stored) → Reaches ttl l h → Sound ttl h l
unfolding store count_fetch
Reaches-Sound ttl _ _ start = (refl, tt)
Reaches-Sound ttl l' h (looked {l} now sweep_at url doc hit r) =
    rw (load_cached-IsHit now sweep_at url doc l l' hit).swept
      (sweep_locked-Sound ttl sweep_at h l (Reaches-Sound ttl l h r))
Reaches-Sound ttl _ h (fetched {l} (Fetched.response status n body) r) = Reaches-Sound ttl l h r
Reaches-Sound ttl _ h (fetched {l} Fetched.no_request r) = Reaches-Sound ttl l h r
Reaches-Sound ttl _ h (fetched {l} Fetched.no_response r) = Reaches-Sound ttl l h r
Reaches-Sound ttl _ _ (put_away {l} {h} now sweep_at url doc r) =
    let (e, b) = Reaches-Sound ttl l h r in
    let s : Stored = record { url = url; doc = doc; at = now } in
    let b' = Backed-there ttl s h l.cache b in
    elim (Bool-cases (l.ttl == 0)) [
      | inl z ↦ rw z (e, b')
      | inr z ↦
          let kept = record l {
            cache = put url (record { doc = doc; expires_at = now + l.ttl }) l.cache;
          } in
          let sound =
            sweep_locked-Sound ttl sweep_at (s ∷ h) kept
              (e, Backed-put ttl (s ∷ h) url _ l.cache (here refl refl (ap (λ t. now + t) e)) b') in
          rw z (rw z at sound)
    ]

-- Among the stores is one of this URL and document less than ttl before.
abbrev pub StoredLately : ℕ → ℕ → Text → Text → List Stored → Type 0
StoredLately ttl now url doc [] = ⊥
StoredLately ttl now url doc (s ∷ h) =
    ((s.url ≡ url) × (s.doc ≡ doc) × (now < s.at + ttl)) ⊎ StoredLately ttl now url doc h

stored_lately :
    (ttl now : ℕ) (url : Text) (e : CacheEntry) (h : List Stored)
    → WasStored ttl url e h
    → now < e.expires_at
    → StoredLately ttl now url e.doc h
stored_lately ttl now url e [] w lt = elim w [ ]
stored_lately ttl now url e (s ∷ h) (here u d x) lt = inl (u, d, omega arith)
stored_lately ttl now url e (s ∷ h) (there w) lt = inr (stored_lately ttl now url e h w lt)

-- Whatever the interleaving of the calls of Load, a document that is served from the cache was
-- stored for that URL less than the ttl before.
pub load_cached-StoredLately :
    (ttl : ℕ) (l l' : SchemaLoader) (h : List Stored) (now sweep_at : ℕ) (url doc : Text)
    → Reaches ttl l h
    → load_cached now sweep_at url l ≡ some (doc, l')
    → StoredLately ttl now url doc h
load_cached-StoredLately ttl l l' h now sweep_at url doc r hit =
    let x = load_cached-IsHit now sweep_at url doc l l' hit in
    let u = x.unexpired in
    rw (← x.same_doc) (
      stored_lately ttl now url x.entry h
        (Backed-lookup ttl h url x.entry l.cache (Reaches-Sound ttl l h r).1 x.found)
        (ground arith))
