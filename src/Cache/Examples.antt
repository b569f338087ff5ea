-- ===== src/Cache/Examples.antt =====
-- Witnesses for src/cache.rs.
use anml_client_rust.Common.{
  ◌-◌, not, ◌&&◌, none, some, List, [], ◌∷◌, ◌≡◌, refl, ◌==◌, leb, if◌then◌else◌, Text, text_eq,
  codes, arith, parse_unsigned, ◌≤◌,
}
use anml_client_rust.Document.{AnmlDocument, empty_document}
use anml_client_rust.Config.{from_secs}
use anml_client_rust.Cache.{
  CacheEntry, CacheInner, with_config, is_expired, extract_ttl, evict_expired, make_room, get,
  insert, insert_with_ttl,
}
use anml_client_rust.Cache.Fresh.{after, Came, get-Came}
use anml_client_rust.Cache.Lookups.{has_room, get-insert_with_ttl}
use anml_client_rust.Cache.Capacity.{
  Operation, inserted, looked_up, IsCache, perform_all, perform_all-IsCache,
}

abbrev page : Text
page = codes "https://shop.example/page"

abbrev one_second : AnmlDocument
one_second = record empty_document { ttl = some (codes "1") }

-- A cache for one document, which holds one that has expired at 5 seconds.
abbrev full_cache : CacheInner
full_cache = record (with_config (from_secs 300) 1) {
  entries =
      (codes "old", record { document = one_second; inserted_at = 0; ttl = from_secs 1 }) ∷ [];
}

get-insert_with_ttl_example :
    (get
      (from_secs 7)
      page
      (insert_with_ttl (from_secs 5) page empty_document (from_secs 9) full_cache)).1
    ≡ (if not (from_secs 9 == 0) && has_room (from_secs 5) full_cache && text_eq page page
        then (if leb (from_secs 7 - from_secs 5) (from_secs 9) then some empty_document else none)
        else (get (from_secs 7) page full_cache).1)
get-insert_with_ttl_example =
    get-insert_with_ttl (from_secs 5) (from_secs 7) page page empty_document (from_secs 9)
      full_cache (refl, tt) (omega arith)

abbrev three_operations : List Operation
three_operations =
    inserted 5 page one_second
    ∷ inserted 6 (codes "other") one_second
    ∷ looked_up (from_secs 4) page
    ∷ []

perform_all-IsCache_example :
    IsCache 1 (perform_all three_operations (with_config (from_secs 300) 1))
perform_all-IsCache_example = perform_all-IsCache (from_secs 300) 1 three_operations

-- The newest first.
abbrev two_pages : List Operation
two_pages = inserted 6 (codes "other") one_second ∷ inserted 5 page one_second ∷ []

page-is_held :
    (get (from_secs 1) page (after two_pages (with_config (from_secs 300) 2))).1 ≡ some one_second
unfolding get insert insert_with_ttl make_room evict_expired is_expired extract_ttl parse_unsigned
page-is_held = refl

get-Came_example :
    (e : CacheEntry) × Came (from_secs 300) two_pages (page, e)
    × (e.document ≡ one_second)
    × (from_secs 1 - e.inserted_at ≤ e.ttl)
get-Came_example = get-Came (from_secs 300) 2 two_pages (from_secs 1) page one_second page-is_held
