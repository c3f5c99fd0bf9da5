-- ===== src/Processors/Loader/Log/Mirror.antt =====
-- The loader against a log that forgets nothing: the sweeps are not seen.
use schema_to_table.Prelude.{
  ℕ, ◌+◌, ◌≤◌, ◌≡◌, refl, ◌∙◌, true, false, Option, none, some, List, [], ◌∷◌, arith, inl, inr,
  Bool-cases, ltb, ◌==◌, if◌then◌else◌,
}
use schema_to_table.Text.{Text}
use schema_to_table.Text.Equality.{same, Distinct}
use schema_to_table.Maps.{lookup, put, keys, lookup-put, put-Distinct}
use schema_to_table.Processors.Loader.{
  CacheEntry, SchemaLoader, new_schema_loader, swept_lately, sweep_locked, load_cached, Fetched,
  Loaded, loaded, failed, rejected, check_response, count_fetch, store, finish_load, load,
}
use schema_to_table.Processors.Loader.Reach.{Stored}
use schema_to_table.Processors.Loader.Log.{
  last_stored, if_young, Call, log_load, log_loads, loads, InTime,
}
use schema_to_table.Processors.Loader.Log.Live.{live, drop_expired-Distinct, live-drop_expired}

-- From the time t on, the entries that are live are the last stores that are young.
abbrev Mirrors : ℕ → ℕ → SchemaLoader → List Stored → Type 0
Mirrors t ttl l log =
    (l.ttl ≡ ttl)
    × Distinct (keys l.cache)
    × ((l.ttl == 0) ≡ true → l.cache ≡ [])
    × ((now : ℕ) (url : Text)
        → t ≤ now
        → live now (lookup url l.cache) ≡ if_young ttl now (last_stored url log))

Mirrors-later :
    (t s ttl : ℕ) (l : SchemaLoader) (log : List Stored)
    → t ≤ s
    → Mirrors t ttl l log
    → Mirrors s ttl l log
Mirrors-later t s ttl l log h (e, d, z, a) = (e, d, z, λ now url le. a now url (omega arith))

sweep_locked-Mirrors :
    (t ttl : ℕ) (l : SchemaLoader) (log : List Stored)
    → Mirrors t ttl l log
    → Mirrors t ttl (sweep_locked t l) log
unfolding sweep_locked
sweep_locked-Mirrors t ttl l log (e, d, z, a) = elim (Bool-cases (l.ttl == 0)) [
  | inl off ↦ rw off (e, d, z, a)
  | inr on ↦ elim (Bool-cases (swept_lately l.ttl t l.last_sweep)) [
    | inl lately ↦ rw (on, lately) (e, d, z, a)
    | inr due ↦
        rw (on, due)
          (
            e,
            drop_expired-Distinct t l.cache d,
            λ f. absurd (cc (f, on)),
            λ now url le. live-drop_expired t now url l.cache le d ∙ a now url le,
          )
  ]
]

-- The last store of a URL, once one more document is stored.
live-put :
    (ttl now at : ℕ) (url doc k : Text) (cache : List (Text × CacheEntry)) (log : List Stored)
    → live now (lookup k cache) ≡ if_young ttl now (last_stored k log)
    → live now (lookup k (put url (record { doc = doc; expires_at = at + ttl }) cache))
      ≡ if_young ttl now (last_stored k (record { url = url; doc = doc; at = at } ∷ log))
unfolding last_stored live if_young
live-put ttl now at url doc k cache log h =
    rw lookup-put (elim (Bool-cases (same url k)) [ inl x ↦ rw x refl | inr x ↦ rw x h ])

store-Mirrors :
    (t at s ttl : ℕ) (url doc : Text) (l : SchemaLoader) (log : List Stored)
    → t ≤ at
    → at ≤ s
    → Mirrors t ttl l log
    → Mirrors s ttl (store at s url doc l) (record { url = url; doc = doc; at = at } ∷ log)
unfolding store last_stored if_young lookup live
store-Mirrors t at s ttl url doc l log h k (e, d, z, a) = elim (Bool-cases (l.ttl == 0)) [
  | inl off ↦ rw off (e, d, z, λ now u le. old off now u (omega arith) (omega arith))
  | inr on ↦
      let sound =
        sweep_locked-Mirrors s ttl (kept l.ttl) (record { url = url; doc = doc; at = at } ∷ log) (
          e,
          put-Distinct url _ l.cache d,
          λ f. absurd (cc (f, on)),
          λ now u le. rw e (live-put ttl now at url doc u l.cache log (a now u (omega arith))),
        ) in
      rw on (rw on at sound)
]
  where
    kept : ℕ → SchemaLoader
    kept ttl = record l { cache = put url (record { doc = doc; expires_at = at + ttl }) l.cache }

    old :
        (l.ttl == 0) ≡ true
        → (now : ℕ) (u : Text) → t ≤ now
        → at ≤ now
        → live now (lookup u l.cache)
          ≡ if_young ttl now (last_stored u (record { url = url; doc = doc; at = at } ∷ log))
    old off now u le le' = elim (Bool-cases (same url u)) [
      | inl x ↦
          let late : ltb now (at + ttl) ≡ false = ground (arith, e, off) in rw (z off, x, late) refl
      | inr x ↦ rw x (a now u le)
    ]

-- The loader behind a hit.
abbrev hit : ℕ → SchemaLoader → SchemaLoader
hit s l = record (sweep_locked s l) { cache_hits = (sweep_locked s l).cache_hits + 1 }

abbrev hit_of : ℕ → SchemaLoader → Option Text → Option (Text × SchemaLoader)
hit_of s l none = none
hit_of s l (some doc) = some (doc, hit s l)

load_cached-live :
    (now s : ℕ) (url : Text) (l : SchemaLoader)
    → load_cached now s url l ≡ hit_of s l (live now (lookup url l.cache))
unfolding load_cached live
load_cached-live now s url l = at_entry (lookup url l.cache)
  where
    at_entry :
        (o : Option CacheEntry)
        → ◌≡◌ {A = Option (Text × SchemaLoader)}
            (elim o [
              | none ↦ none
              | some e ↦ if ltb now e.expires_at then some (e.doc, hit s l) else none
            ])
            (hit_of s l (live now o))
    at_entry none = refl
    at_entry (some e) = elim (Bool-cases (ltb now e.expires_at)) [
      | inl y ↦ rw y refl
      | inr y ↦ rw y refl
    ]

-- The same answer, and from the time t on the same further ones.
abbrev Answers : ℕ → ℕ → Loaded × SchemaLoader → Loaded × List Stored → Type 0
Answers t ttl r r' = (r.0 ≡ r'.0) × Mirrors t ttl r.1 r'.1

count_fetch-Mirrors :
    (f : Fetched) (t ttl : ℕ) (l : SchemaLoader) (log : List Stored)
    → Mirrors t ttl l log
    → Mirrors t ttl (count_fetch f l) log
unfolding count_fetch
count_fetch-Mirrors (Fetched.response status n body) t ttl l log m = m
count_fetch-Mirrors Fetched.no_request t ttl l log m = m
count_fetch-Mirrors Fetched.no_response t ttl l log m = m

load-Answers :
    (t ttl : ℕ) (c : Call) (l : SchemaLoader) (log : List Stored)
    → t ≤ c.now
    → c.now ≤ c.store_at
    → c.store_at ≤ c.sweep_at
    → Mirrors t ttl l log
    → Answers c.sweep_at ttl (load c.get c.now c.store_at c.sweep_at c.url l) (log_load ttl c log)
unfolding load log_load finish_load
load-Answers t ttl c l log h₁ h₂ h₃ m =
    rw (load, log_load, load_cached-live c.now c.sweep_at c.url l, m.3 c.now c.url h₁)
      (at_young (if_young ttl c.now (last_stored c.url log)))
  where
    f : Fetched
    f = c.get c.url

    later : Mirrors c.sweep_at ttl l log
    later = Mirrors-later t c.sweep_at ttl l log (omega arith) m

    at_response :
        (r : Loaded)
        → Answers c.sweep_at ttl
            (elim r [
              | loaded doc ↦ (loaded doc, store c.store_at c.sweep_at c.url doc (count_fetch f l))
              | failed e ↦ (failed e, count_fetch f l)
              | rejected e ↦ (rejected e, count_fetch f l)
            ])
            (elim r [
              | loaded doc ↦ (loaded doc, record { url = c.url; doc = doc; at = c.store_at } ∷ log)
              | failed e ↦ (failed e, log)
              | rejected e ↦ (rejected e, log)
            ])
    at_response (loaded doc) = (
      refl,
      store-Mirrors t c.store_at c.sweep_at ttl c.url doc (count_fetch f l) log (omega arith) h₃
          (count_fetch-Mirrors f t ttl l log m),
    )
    at_response (failed e) = (refl, count_fetch-Mirrors f c.sweep_at ttl l log later)
    at_response (rejected e) = (refl, count_fetch-Mirrors f c.sweep_at ttl l log later)

    at_young :
        (o : Option Text)
        → Answers c.sweep_at ttl
            (elim (hit_of c.sweep_at l o) [
              | some (doc, l') ↦ (loaded doc, l')
              | none ↦ finish_load c.store_at c.sweep_at c.url (c.get c.url) l
            ])
            (elim o [
              | some doc ↦ (loaded doc, log)
              | none ↦ elim (check_response (c.get c.url)) [
                | loaded doc ↦
                    (loaded doc, record { url = c.url; doc = doc; at = c.store_at } ∷ log)
                | failed e ↦ (failed e, log)
                | rejected e ↦ (rejected e, log)
              ]
            ])
    at_young none = at_response (check_response f)
    at_young (some doc) = (refl, sweep_locked-Mirrors c.sweep_at ttl l log later)

loads-Mirrors :
    (t ttl : ℕ) (calls : List Call) (l : SchemaLoader) (log : List Stored)
    → InTime t calls
    → Mirrors t ttl l log
    → loads calls l ≡ log_loads ttl calls log
unfolding loads log_loads
loads-Mirrors t ttl [] l log h m = refl
loads-Mirrors t ttl (c ∷ calls) l log (h₁, h₂, h₃, h) m =
    let (e, m') = load-Answers t ttl c l log h₁ h₂ h₃ m in
    let rest =
      loads-Mirrors c.sweep_at ttl calls (load c.get c.now c.store_at c.sweep_at c.url l).1
        (log_load ttl c log).1 h m' in
    rw (e, rest) refl

-- Under a clock that does not go back, the calls of Load on a new loader, one after the other, give
-- what the log gives: each serves the last document stored for its URL if it is younger than the
-- ttl, and else what its response is checked to be. No sweep of the cache is ever seen.
pub loads-log_loads :
    (ttl : ℕ) (calls : List Call)
    → InTime 0 calls
    → loads calls (new_schema_loader ttl) ≡ log_loads ttl calls []
unfolding if_young last_stored live lookup
loads-log_loads ttl calls h =
    loads-Mirrors 0 ttl calls (new_schema_loader ttl) [] h (refl, tt, λ _. refl, λ now url _. refl)
