-- ===== src/Discovery/Links/First.antt =====
-- Which entry of a `Link` header src/discovery/link_header.rs takes.
use anml_client_rust.Common.{Option, some, List, ◌∷◌, ◌++◌, ◌≡◌, Text, All, split_once}
use anml_client_rust.Discovery.{DiscoveryResult}
use anml_client_rust.Discovery.Links.Alternate.{IsAlternate, IsResult}
use anml_client_rust.Discovery.Links.{Run, returns, parse_params}

-- The entry has a reference in angle brackets, and its parameters can be read.
abbrev pub Reads : Text → Text → List (Text × Text) → Type 0
Reads link href params =
    (before : Text) × (rest : Text) × (params_str : Text) × (split_once b'<' link
      ≡ some (before, rest))
    × (split_once b'>' rest ≡ some (href, params_str))
    × (parse_params params_str ≡ returns params)

-- It is a link, but not the one that is looked for.
abbrev pub IsOther : Text → Type 0
IsOther link =
    (href : Text) × (params : List (Text × Text)) × Reads link href params × (¬ IsAlternate params)

-- The first of the entries that is looked for, behind entries that all can be read.
abbrev pub IsFound : Text → List Text → DiscoveryResult → Type 0
IsFound origin links r =
    (before : List Text) × (link : Text) × (after : List Text) × (href : Text) × (params : List
      (Text × Text))
    × (links ≡ before ++ (link ∷ after))
    × All IsOther before
    × Reads link href params
    × IsAlternate params
    × IsResult origin href r

abbrev result_or : DiscoveryResult → Run (Option DiscoveryResult) → DiscoveryResult
result_or r (returns (some found)) = found
result_or r _ = r
