-- ===== src/Pagination/Examples.antt =====
-- Witnesses for src/pagination.rs.
use anml_client_rust.Common.{ℕ, ◌+◌, some, [], ◌∷◌, Text, codes}
use anml_client_rust.Document.{AnmlDocument, nav, empty_document}
use anml_client_rust.Error.{Result, ok}

abbrev first_page : AnmlDocument
first_page = record empty_document {
  body = some (record {
    children =
        some
          (nav (record { next = some (codes "/flights?page=2"); total = some (codes "7") }) ∷ []);
  });
}

-- Counts the fetches.
abbrev last_page : Text → ℕ → ℕ × Result AnmlDocument
last_page url n = (n + 1, ok empty_document)
