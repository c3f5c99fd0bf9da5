-- ===== src/Processors/Loader.antt =====
-- pkg/processors/loader.go: the cache of schema documents. The HTTP response is data, and a time is
-- a number of nanoseconds. The clock is read anew at every use, so the readings are arguments. A
-- negative ttl does what 0 does.
pub mod Reach
pub mod Log
use schema_to_table.Prelude.{
  ℕ, ◌+◌, ◌-◌, ◌*◌, ◌^◌, Bool, true, false, not, ◌&&◌, Option, none, some, List, [], ◌∷◌, ltb, leb,
  ◌==◌, if◌then◌else◌,
}
use schema_to_table.Text.{Text, codes, is_empty, trim_space}
use schema_to_table.Maps.{lookup, put}

-- maxSchemaBytes
abbrev pub max_schema_bytes : ℕ
max_schema_bytes = 2 ^ 20

-- cacheEntry
pub record CacheEntry : Type 0 where
  pub doc : Text
  pub expires_at : ℕ

-- schemaLoader, without its client and clock. last_sweep is none for the zero time, which lies
-- further back than any ttl.
pub record SchemaLoader : Type 0 where
  pub ttl : ℕ
  pub cache : List (Text × CacheEntry)
  pub last_sweep : Option ℕ
  pub cache_hits : ℕ
  pub fetches : ℕ

-- newSchemaLoader
abbrev pub new_schema_loader : ℕ → SchemaLoader
new_schema_loader ttl = record {
  ttl = ttl;
  cache = [];
  last_sweep = none;
  cache_hits = 0;
  fetches = 0;
}

-- The entries that have not expired.
unfoldable pub drop_expired : ℕ → List (Text × CacheEntry) → List (Text × CacheEntry)
drop_expired now [] = []
drop_expired now ((u, e) ∷ cache) =
    let rest = drop_expired now cache in if ltb now e.expires_at then (u, e) ∷ rest else rest

-- `now.Sub(l.lastSweep) < l.ttl`
unfoldable pub swept_lately : ℕ → ℕ → Option ℕ → Bool
swept_lately ttl now none = false
swept_lately ttl now (some last) = ltb (now - last) ttl

-- sweepLocked
unfoldable pub sweep_locked : ℕ → SchemaLoader → SchemaLoader
unfolding drop_expired swept_lately
sweep_locked now l =
    if l.ttl == 0
    then l
    else if swept_lately l.ttl now l.last_sweep
    then l
    else record l { cache = drop_expired now l.cache; last_sweep = some now }

-- The first locked section of Load: the document, if a copy has not expired.
unfoldable pub load_cached : ℕ → ℕ → Text → SchemaLoader → Option (Text × SchemaLoader)
unfolding sweep_locked
load_cached now sweep_at url l = elim (lookup url l.cache) [
  | none ↦ none
  | some e ↦
      let swept = sweep_locked sweep_at l in
      if ltb now e.expires_at
      then some (e.doc, record swept { cache_hits = swept.cache_hits + 1 })
      else none
]

-- What a GET gives: no request or no response; or a response, with its body's length in bytes and
-- its text, none if it cannot be read.
pub data Fetched : Type 0 where
  no_request no_response : Fetched
  response : ℕ → Option ℕ → Option (ℕ × Text) → Fetched

pub data LoadError : Type 0 where
  bad_request transport_failed body_unreadable too_large empty_document : LoadError
  http_status : ℕ → LoadError

-- The outcome of Load; `rejected` is an error under permanent.
pub data Loaded : Type 0 where
  loaded : Text → Loaded
  failed rejected : LoadError → Loaded

unfoldable pub check_body : ℕ × Text → Loaded
check_body (size, text) =
    if ltb max_schema_bytes size
    then rejected too_large
    else if is_empty (trim_space text)
    then rejected empty_document
    else loaded (trim_space text)

-- The checks on a response.
unfoldable pub check_response : Fetched → Loaded
unfolding check_body
check_response no_request = failed bad_request
check_response no_response = failed transport_failed
check_response (response status content_length body) =
    if not (status == 200)
    then (if leb 400 status && ltb status 500
        then rejected (http_status status)
        else failed (http_status status))
    else if elim content_length [ none ↦ false | some n ↦ ltb max_schema_bytes n ]
    then rejected too_large
    else elim body [ none ↦ failed body_unreadable | some b ↦ check_body b ]

-- l.fetches.Incr(1), where there is a response
unfoldable pub count_fetch : Fetched → SchemaLoader → SchemaLoader
count_fetch (response status content_length body) l = record l { fetches = l.fetches + 1 }
count_fetch _ l = l

-- The second locked section of Load.
unfoldable pub store : ℕ → ℕ → Text → Text → SchemaLoader → SchemaLoader
unfolding sweep_locked
store now sweep_at url doc l =
    if l.ttl == 0
    then l
    else sweep_locked sweep_at
        (record l { cache = put url (record { doc = doc; expires_at = now + l.ttl }) l.cache })

-- The part of Load behind the request.
unfoldable pub finish_load : ℕ → ℕ → Text → Fetched → SchemaLoader → Loaded × SchemaLoader
unfolding check_response count_fetch store
finish_load now sweep_at url fetched l = elim (check_response fetched) [
  | loaded doc ↦ (loaded doc, store now sweep_at url doc (count_fetch fetched l))
  | failed e ↦ (failed e, count_fetch fetched l)
  | rejected e ↦ (rejected e, count_fetch fetched l)
]

-- Load without another call in between; `get` is the client, and the readings of the clock are at
-- the lookup, at the store and at the sweep.
unfoldable pub load : (Text → Fetched) → ℕ → ℕ → ℕ → Text → SchemaLoader → Loaded × SchemaLoader
unfolding load_cached finish_load
load get now store_at sweep_at url l = elim (load_cached now sweep_at url l) [
  | some (doc, l') ↦ (loaded doc, l')
  | none ↦ finish_load store_at sweep_at url (get url) l
]
