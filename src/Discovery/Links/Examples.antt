-- ===== src/Discovery/Links/Examples.antt =====
-- Witnesses for src/discovery/link_header.rs.
use anml_client_rust.Common.{none, some, [], ◌∷◌, ◌≡◌, ◌++◌, refl, Text, codes}
use anml_client_rust.Discovery.{DiscoveryResult, link_header}
use anml_client_rust.Discovery.Links.{returns, panics, parse_link_header}

abbrev example_header : Text
example_header =
    codes "</style.css>; rel=stylesheet, </anml>; rel=\"alternate\"; type=\"application/anml+xml\""

abbrev shop : Text
shop = codes "https://shop.example"

abbrev found_link : DiscoveryResult
found_link = record {
  endpoint = codes "https://shop.example/anml";
  version = none;
  metadata = [];
  mechanism = link_header;
}

second_entry : parse_link_header example_header shop ≡ returns (some found_link)
unfolding parse_link_header
second_entry = refl

-- A lone quotation mark as a value.
lone_quote : parse_link_header (codes "</anml>; rel=" ++ (34 ∷ [])) shop ≡ panics
unfolding parse_link_header
lone_quote = refl

-- An entry without angle brackets hides the one behind it.
hidden_entry : parse_link_header (codes "x, " ++ example_header) shop ≡ returns none
unfolding parse_link_header
hidden_entry = refl
