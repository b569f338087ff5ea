-- ===== src/Discovery/Links/Alternate.antt =====
-- Which links src/discovery/link_header.rs takes for the service, and where they lead.
use anml_client_rust.Common.{
  true, ◌||◌, none, List, [], ◌∷◌, ◌++◌, ◌≡◌, ◌≢◌, ap, inl, inr, ◌↔◌, ◌⊎◌, Text, text_eq_iff, codes,
  starts_with, Begins, starts_with_iff, trim_end_matches, arith, Bool-cases,
}
use anml_client_rust.Client.Fetch.{anml_content_type}
use anml_client_rust.Discovery.{DiscoveryResult, link_header, resolve_href}
use anml_client_rust.Discovery.Links.{get, is_text, is_anml_link, link_result}

-- The first of the pairs with the name has the value. The parameters of a link stand the last one
-- first.
abbrev pub Names : Text → Text → List (Text × Text) → Type 0
Names k v [] = ⊥
Names k v ((k', v') ∷ params) = ((k' ≡ k) × (v' ≡ v)) ⊎ ((k' ≢ k) × Names k v params)

-- An alternate of the media type of ANML.
abbrev pub IsAlternate : List (Text × Text) → Type 0
IsAlternate params =
    Names (codes "rel") (codes "alternate") params
    × Names (codes "type") (codes "application/anml+xml") params

get-Names :
    (k v : Text) (params : List (Text × Text))
    → (is_text v (get k params) ≡ true) ↔ Names k v params
get-Names k v [] = ground arith
get-Names k v ((k', v') ∷ params) =
    ground (arith, text_eq_iff k' k, text_eq_iff v' v, get-Names k v params)

pub is_anml_link_iff :
    (params : List (Text × Text)) → (is_anml_link params ≡ true) ↔ IsAlternate params
is_anml_link_iff params = ground (
  arith,
  get-Names (codes "rel") (codes "alternate") params,
  get-Names (codes "type") anml_content_type params,
)

abbrev pub IsAbsolute : Text → Type 0
IsAbsolute href = Begins (codes "http://") href ⊎ Begins (codes "https://") href

starts_with-IsAbsolute :
    (href : Text)
    → (starts_with (codes "http://") href || starts_with (codes "https://") href ≡ true)
      ↔ IsAbsolute href
starts_with-IsAbsolute href =
    ground (arith, starts_with_iff (codes "http://") href, starts_with_iff (codes "https://") href)

-- An absolute reference is the endpoint itself. Any other is put behind the origin without its last
-- slashes, with nothing between them.
abbrev pub LeadsTo : Text → Text → Text → Type 0
LeadsTo origin href endpoint =
    (IsAbsolute href × (endpoint ≡ href))
    ⊎ ((¬ IsAbsolute href) × (endpoint ≡ trim_end_matches b'/' origin ++ href))

resolve_href-LeadsTo :
    (origin href endpoint : Text)
    → (endpoint ≡ resolve_href origin href) ↔ LeadsTo origin href endpoint
resolve_href-LeadsTo origin href endpoint =
    elim (Bool-cases (starts_with (codes "http://") href || starts_with (codes "https://") href)) [
      | inl absolute ↦
          let is : IsAbsolute href = (starts_with-IsAbsolute href).0 absolute in
          rw absolute
            ((λ e. inl (is, e)), λ l. elim l [ inl (a, e) ↦ e | inr (n, e) ↦ absurd (n is) ])
      | inr relative ↦
          let isnt : ¬ IsAbsolute href =
            λ a. ground (arith, relative, (starts_with-IsAbsolute href).1 a) in
          rw relative
            ((λ e. inr (isnt, e)), λ l. elim l [ inl (a, e) ↦ absurd (isnt a) | inr (n, e) ↦ e ])
    ]

-- The result for a link: an endpoint, and nothing more than the mechanism.
abbrev pub IsResult : Text → Text → DiscoveryResult → Type 0
IsResult origin href r =
    LeadsTo origin href r.endpoint
    × (r.version ≡ none)
    × (r.metadata ≡ [])
    × (r.mechanism ≡ link_header)

pub link_result-IsResult :
    (origin href : Text) (r : DiscoveryResult)
    → (r ≡ link_result origin href) ↔ IsResult origin href r
link_result-IsResult origin href r = (
  λ e. (
    (resolve_href-LeadsTo origin href r.endpoint).0 (ap (λ x. x.endpoint) e),
    ap (λ x. x.version) e,
    ap (λ x. x.metadata) e,
    ap (λ x. x.mechanism) e,
  ),
  λ (leads, v, m, k).
      let e = (resolve_href-LeadsTo origin href r.endpoint).1 leads in
      λ i. record { endpoint = e i; version = v i; metadata = m i; mechanism = k i },
)
