-- ===== src/Cache.antt =====
-- src/cache.rs: the cache of documents by URL. Instants and durations are nanoseconds, and an
-- operation reads the clock once. The lock is left out: each operation holds it from start to end.
mod Examples
pub mod Lookups
pub mod Capacity
pub mod Fresh
use anml_client_rust.Common.{
  ℕ, ◌-◌, ◌^◌, Bool, true, false, not, Option, none, some, List, [], ◌∷◌, ◌==◌, ltb, leb,
  if◌then◌else◌, length, retain, Text, text_instance, parse_unsigned,
}
use anml_client_rust.Common.Assoc
use anml_client_rust.Config.{from_secs}
use anml_client_rust.Document.{AnmlDocument}

pub record CacheEntry : Type 0 where
  pub document : AnmlDocument
  pub inserted_at : ℕ
  pub ttl : ℕ

pub record CacheInner : Type 0 where
  pub entries : List (Text × CacheEntry)
  pub default_ttl : ℕ
  pub max_entries : ℕ

unfoldable pub is_expired : ℕ → CacheEntry → Bool
is_expired now e = ltb e.ttl (now - e.inserted_at)

abbrev pub with_config : ℕ → ℕ → CacheInner
with_config default_ttl max_entries = record {
  entries = [];
  default_ttl = default_ttl;
  max_entries = max_entries;
}

unfoldable pub extract_ttl : AnmlDocument → Option ℕ
extract_ttl doc = elim doc.ttl [
  | none ↦ none
  | some s ↦ elim (parse_unsigned (2 ^ 64 - 1) s) [ none ↦ none | some n ↦ some (from_secs n) ]
]

unfoldable pub get : ℕ → Text → CacheInner → CacheInner × Option AnmlDocument
get now url c = elim (Assoc.get url c.entries) [
  | none ↦ (c, none)
  | some e ↦
      if is_expired now e
      then (record c { entries = Assoc.remove url c.entries }, none)
      else (c, some e.document)
]

abbrev pub is_live : ℕ → Text × CacheEntry → Bool
is_live now (url, e) = not (is_expired now e)

unfoldable pub evict_expired : ℕ → CacheInner → CacheInner
evict_expired now c = record c { entries = retain (is_live now) c.entries }

-- The eviction at capacity.
unfoldable pub make_room : ℕ → CacheInner → CacheInner
unfolding evict_expired
make_room now c = if leb c.max_entries (length c.entries) then evict_expired now c else c

unfoldable pub insert_with_ttl : ℕ → Text → AnmlDocument → ℕ → CacheInner → CacheInner
unfolding make_room
insert_with_ttl now url document ttl c =
    if ttl == 0
    then c
    else if leb c.max_entries (length (make_room now c).entries)
    then make_room now c
    else record c {
      entries =
          Assoc.insert url (record { document = document; inserted_at = now; ttl = ttl })
            (make_room now c).entries;
    }

-- `insert`: the document's own time to live, or the default.
unfoldable pub insert : ℕ → Text → AnmlDocument → CacheInner → CacheInner
unfolding insert_with_ttl extract_ttl
insert now url document c = elim (extract_ttl document) [
  | none ↦ insert_with_ttl now url document c.default_ttl c
  | some ttl ↦ insert_with_ttl now url document ttl c
]

unfoldable pub invalidate : Text → CacheInner → CacheInner
invalidate url c = record c { entries = Assoc.remove url c.entries }

unfoldable pub clear : CacheInner → CacheInner
clear c = record c { entries = [] }
