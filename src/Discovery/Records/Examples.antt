-- ===== src/Discovery/Records/Examples.antt =====
-- Witnesses for src/discovery/dns_sd.rs.
use anml_client_rust.Common.{
  ℕ, none, some, List, [], ◌∷◌, ◌≡◌, refl, if◌then◌else◌, Text, text_eq, codes, decimal,
}
use anml_client_rust.Error.{ok, err, malformed_document}
use anml_client_rust.Discovery.{DiscoveryResult, dns_sd}
use anml_client_rust.Discovery.Records.{Resolver, discover_dns_sd}

abbrev origin : Text
origin = codes "https://shop.example"

abbrev two_servers : List (Text × ℕ)
two_servers = (codes "a.shop.example.", 8443) ∷ (codes "b.shop.example.", 443) ∷ []

-- A resolver that knows one service, with these texts.
abbrev resolver_with : List Text → Resolver
resolver_with records = record {
  parse_url =
      λ url. if text_eq url origin then some (codes "https", some (codes "shop.example")) else none;
  srv_lookup =
      λ name. if text_eq name (codes "_anml._tcp.shop.example.") then some two_servers else none;
  txt_lookup = λ name. some records;
}

abbrev two_records : List Text
two_records = codes "path=/old v=anml1" ∷ codes "path=anml v=anml2 note" ∷ []

abbrev found_service : DiscoveryResult
found_service = record {
  endpoint = codes "https://a.shop.example:8443/anml";
  version = some (codes "1.0");
  metadata =
      (codes "v", codes "anml2")
      ∷ (codes "path", codes "anml")
      ∷ (codes "v", codes "anml1")
      ∷ (codes "path", codes "/old")
      ∷ [];
  mechanism = dns_sd;
}

first_server : discover_dns_sd (resolver_with two_records) origin ≡ ok found_service
unfolding discover_dns_sd decimal
first_server = refl

unnamed_version :
    discover_dns_sd (resolver_with (codes "path=/anml" ∷ [])) origin ≡ err malformed_document
unfolding discover_dns_sd
unnamed_version = refl
