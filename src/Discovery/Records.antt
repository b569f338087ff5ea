-- ===== src/Discovery/Records.antt =====
-- src/discovery/dns_sd.rs: the service in the records of the domain name system. The resolver (the
-- crate `hickory`) and the URL parser (`url`) are arguments.
pub mod Pairs
pub mod Service
mod Examples
use anml_client_rust.Common.{
  ℕ, Bool, false, ◌&&◌, ◌||◌, Option, none, some, List, [], ◌∷◌, ◌++◌, if◌then◌else◌, Text, text_eq,
  codes, is_empty, decimal, starts_with, trim, trim_end_matches, split, split_once,
}
use anml_client_rust.Error.{malformed_document, Result, ok, err, ◌>>=◌, ok_or}
use anml_client_rust.Discovery.{DiscoveryResult, dns_sd}

pub record Resolver : Type 0 where
  -- the scheme, and the host where there is one
  pub parse_url : Text → Option (Text × Option Text)
  -- the target and the port of each record, if the lookup succeeds
  pub srv_lookup : Text → Option (List (Text × ℕ))
  -- each record as text
  pub txt_lookup : Text → Option (List Text)

pub record Entries : Type 0 where
  pub found_version : Bool
  pub path : Text
  pub metadata : List (Text × Text)

abbrev pub no_entries : Entries
no_entries = record { found_version = false; path = []; metadata = [] }

unfoldable pub add_entry : Text → Text → Entries → Entries
add_entry key value es = record {
  found_version = es.found_version || (text_eq key (codes "v") && text_eq value (codes "anml1"));
  path = if text_eq key (codes "path") then value else es.path;
  metadata = (key, value) ∷ es.metadata;
}

unfoldable pub entry_loop : List Text → Entries → Entries
unfolding add_entry
entry_loop [] es = es
entry_loop (entry ∷ entries) es = elim (split_once b'=' entry) [
  | none ↦ entry_loop entries es
  | some (k, v) ↦ entry_loop entries (add_entry (trim k) (trim v) es)
]

unfoldable pub record_loop : List Text → Entries → Entries
unfolding entry_loop
record_loop [] es = es
record_loop (txt ∷ records) es = record_loop records (entry_loop (split b' ' txt) es)

abbrev pub entries_of : Option (List Text) → Entries
entries_of none = no_entries
entries_of (some records) = record_loop records no_entries

abbrev pub first_record : List (Text × ℕ) → Option (Text × ℕ)
first_record [] = none
first_record (r ∷ records) = some r

abbrev pub endpoint_of : Text → Text → ℕ → Text → Text
endpoint_of scheme target port path =
    let base = scheme ++ codes "://" ++ target ++ codes ":" ++ decimal port in
    if is_empty path
    then base
    else if starts_with (codes "/") path
    then base ++ path
    else base ++ codes "/" ++ path

unfoldable pub discover_dns_sd : Resolver → Text → Result DiscoveryResult
unfolding record_loop
discover_dns_sd resolver origin = do
  (scheme, host) ← ok_or (resolver.parse_url origin) malformed_document
  domain ← ok_or host malformed_document
  let name = codes "_anml._tcp." ++ domain ++ codes "."
  records ← ok_or (resolver.srv_lookup name) malformed_document
  (target, port) ← ok_or (first_record records) malformed_document
  let es = entries_of (resolver.txt_lookup name)
  if es.found_version
      then ok (record {
        endpoint = endpoint_of scheme (trim_end_matches b'.' target) port es.path;
        version = some (codes "1.0");
        metadata = es.metadata;
        mechanism = dns_sd;
      })
      else err malformed_document
