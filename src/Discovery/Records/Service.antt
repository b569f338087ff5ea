-- ===== src/Discovery/Records/Service.antt =====
-- Which services `discover_dns_sd` of src/discovery/dns_sd.rs finds.
use anml_client_rust.Common.{
  ℕ, some, List, [], ◌∷◌, ◌++◌, ◌≡◌, if◌then◌else◌, Text, text_instance, codes, trim_end_matches,
  decimal, ◌==◌, Member,
}
use anml_client_rust.Common.Assoc
use anml_client_rust.Error.{malformed_document, Result, ok, err}
use anml_client_rust.Client.Fetch.{or_empty}
use anml_client_rust.Discovery.{DiscoveryResult, dns_sd}
use anml_client_rust.Discovery.Records.{Resolver, Entries, endpoint_of}
use anml_client_rust.Discovery.Records.Pairs.{record_pairs, newest_first, version_entry}

abbrev pub service_name : Text → Text
service_name domain = codes "_anml._tcp." ++ domain ++ codes "."

abbrev pub service : Text → Text → ℕ → Entries → DiscoveryResult
service scheme target port es = record {
  endpoint = endpoint_of scheme (trim_end_matches b'.' target) port es.path;
  version = some (codes "1.0");
  metadata = es.metadata;
  mechanism = dns_sd;
}

abbrev checked : Text → Text → ℕ → Entries → Result DiscoveryResult
checked scheme target port es =
    if es.found_version then ok (service scheme target port es) else err malformed_document

-- Nothing, or the path with one slash in front at least.
abbrev pub below : Text → Text
below [] = []
below (c ∷ path) = if b'/' == c then c ∷ path else b'/' ∷ c ∷ path

-- What the records tell, at the target and the port: the table of their pairs, and its path.
abbrev pub told : Text → Text → ℕ → List Text → DiscoveryResult
told scheme target port records =
    let table = newest_first (record_pairs records) [] in
    let path = or_empty (Assoc.get (codes "path") table) in
    record {
      endpoint =
          scheme
          ++ (codes "://"
              ++ (trim_end_matches b'.' target ++ (codes ":" ++ (decimal port ++ below path))));
      version = some (codes "1.0");
      metadata = table;
      mechanism = dns_sd;
    }

module _ (resolver : Resolver) (origin : Text) where
  -- The service of the first SRV record, where an entry names the version.
  abbrev pub IsService : DiscoveryResult → Type 0
  IsService r =
      (scheme : Text) × (domain : Text) × (target : Text) × (port : ℕ) × (others : List (Text × ℕ))
      × (records : List Text) × (resolver.parse_url origin ≡ some (scheme, some domain))
      × (resolver.srv_lookup (service_name domain) ≡ some ((target, port) ∷ others))
      × (resolver.txt_lookup (service_name domain) ≡ some records)
      × Member version_entry (record_pairs records)
      × (told scheme target port records ≡ r)
