-- ===== src/Processors/Loader/Log.antt =====
-- A log of the documents stored, which forgets nothing, as what the loader promises.
pub mod Live
pub mod Mirror
use schema_to_table.Prelude.{
  ℕ, ◌+◌, ◌-◌, ◌<◌, ◌≤◌, ◌≡◌, refl, sym, ◌∙◌, ap, Bool, true, false, not, ◌||◌, Option, none, some,
  List, [], ◌∷◌, arith, inl, inr, Bool-cases, ltb, ◌==◌, if◌then◌else◌,
}
use schema_to_table.Text.{Text}
use schema_to_table.Text.Equality.{same, same_iff, contains, Distinct}
use schema_to_table.Maps.{lookup, put, keys, lookup-put, put-Distinct}
use schema_to_table.Processors.Loader.{
  CacheEntry, SchemaLoader, new_schema_loader, drop_expired, swept_lately, sweep_locked,
  load_cached, Fetched, Loaded, loaded, failed, rejected, check_response, count_fetch, store,
  finish_load, load,
}
use schema_to_table.Processors.Loader.Reach.{Stored}

-- The last store of a URL.
unfoldable pub last_stored : Text → List Stored → Option Stored
last_stored url [] = none
last_stored url (s ∷ log) = if same s.url url then some s else last_stored url log

-- The document of a store that is younger than the ttl.
unfoldable pub if_young : ℕ → ℕ → Option Stored → Option Text
if_young ttl now none = none
if_young ttl now (some s) = if ltb now (s.at + ttl) then some s.doc else none

-- A call of Load: the URL, what a GET gives, and the readings of the clock.
pub record Call : Type 0 where
  pub url : Text
  pub get : Text → Fetched
  pub now : ℕ
  pub store_at : ℕ
  pub sweep_at : ℕ

-- A call against a log of all stores: the last document of the URL if it is younger than the ttl,
-- and else what the response gives, which is logged if it is a document.
unfoldable pub log_load : ℕ → Call → List Stored → Loaded × List Stored
unfolding last_stored if_young
log_load ttl c log = elim (if_young ttl c.now (last_stored c.url log)) [
  | some doc ↦ (loaded doc, log)
  | none ↦ elim (check_response (c.get c.url)) [
    | loaded doc ↦ (loaded doc, record { url = c.url; doc = doc; at = c.store_at } ∷ log)
    | failed e ↦ (failed e, log)
    | rejected e ↦ (rejected e, log)
  ]
]

-- The results of calls, one after the other.
unfoldable pub log_loads : ℕ → List Call → List Stored → List Loaded
unfolding log_load
log_loads ttl [] log = []
log_loads ttl (c ∷ calls) log = let r = log_load ttl c log in r.0 ∷ log_loads ttl calls r.1

unfoldable pub loads : List Call → SchemaLoader → List Loaded
loads [] l = []
loads (c ∷ calls) l =
    let r = load c.get c.now c.store_at c.sweep_at c.url l in r.0 ∷ loads calls r.1

-- The clock does not go back from the time t on.
abbrev pub InTime : ℕ → List Call → Type 0
InTime t [] = Unit
InTime t (c ∷ calls) =
    (t ≤ c.now) × (c.now ≤ c.store_at) × (c.store_at ≤ c.sweep_at) × InTime c.sweep_at calls
