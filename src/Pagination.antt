-- ===== src/Pagination.antt =====
-- src/pagination.rs: the pages that the `next` links of a document lead to. `fetch_url` is the client's,
-- with the client's state passed along.
mod Examples
pub mod Pages
use anml_client_rust.Common.{
  ℕ, zero, suc, Bool, true, false, ◌||◌, Option, none, some, List, [], ◌∷◌, is_some, Text,
  parse_unsigned,
}
use anml_client_rust.Document.{AnmlDocument, AnmlNav, AnmlBodyChild, nav, section, other}
use anml_client_rust.Error.{Result, ok, err}

-- The loop over the children of the body: an element of data has no effect on it.
unfoldable pub nav_loop : Option Text → List AnmlBodyChild → Option AnmlNav
nav_loop data_id [] = none
nav_loop data_id (nav n ∷ children) = some n
nav_loop data_id (section i ∷ children) = nav_loop data_id children
nav_loop data_id (other ∷ children) = nav_loop data_id children

unfoldable pub find_nav : AnmlDocument → Option Text → Option AnmlNav
unfolding nav_loop
find_nav doc data_id = elim doc.body [
  | none ↦ none
  | some body ↦ elim body.children [ none ↦ none | some children ↦ nav_loop data_id children ]
]

unfoldable pub next_url : AnmlDocument → Option Text → Option Text
unfolding find_nav
next_url doc data_id = elim (find_nav doc data_id) [ none ↦ none | some n ↦ n.next ]

abbrev pub parse_total : Option Text → Option ℕ
parse_total none = none
parse_total (some t) = parse_unsigned 18_446_744_073_709_551_615 t

unfoldable pub nav_total : AnmlDocument → Option Text → Option ℕ
unfolding find_nav
nav_total doc data_id = elim (find_nav doc data_id) [ none ↦ none | some n ↦ parse_total n.total ]

pub record PageIterator : Type 0 where
  pub next : Option Text
  pub data_id : Option Text
  pub total : Option ℕ
  pub first_doc : Option AnmlDocument

-- `paginate`
unfoldable pub new_iterator : AnmlDocument → Option Text → PageIterator
unfolding next_url nav_total
new_iterator doc data_id = record {
  next = next_url doc data_id;
  data_id = data_id;
  total = nav_total doc data_id;
  first_doc = some doc;
}

abbrev pub has_next : PageIterator → Bool
has_next it = is_some it.first_doc || is_some it.next

module _ {S : Type 0} (fetch_url : Text → S → S × Result AnmlDocument) where
  unfoldable pub next_page : PageIterator → S → (PageIterator × S) × Option (Result AnmlDocument)
  unfolding next_url
  next_page it s = elim it.first_doc [
    | some doc ↦ ((record it { first_doc = none }, s), some (ok doc))
    | none ↦ elim it.next [
      | none ↦ ((it, s), none)
      | some url ↦
          let (s', fetched) = fetch_url url s in
          elim fetched [
            | ok doc ↦ ((record it { next = next_url doc it.data_id }, s'), some (ok doc))
            | err e ↦ ((record it { next = none }, s'), some (err e))
          ]
    ]
  ]
