-- ===== src/Pagination/Pages.antt =====
-- Which pages an iterator of src/pagination.rs yields.
use anml_client_rust.Common.{ℕ, zero, suc, Option, none, some, List, [], ◌∷◌, Text}
use anml_client_rust.Document.{AnmlDocument}
use anml_client_rust.Error.{Result, ok, err}
use anml_client_rust.Pagination.{next_url, PageIterator, next_page}

module _ {S : Type 0} (fetch_url : Text → S → S × Result AnmlDocument) where
  -- The items of the first `n` calls of `next_page`, up to the end.
  abbrev pub item_of :
      Option (Result AnmlDocument) → List (Result AnmlDocument) → List (Result AnmlDocument)
  item_of none rest = []
  item_of (some r) rest = r ∷ rest

  abbrev pub pages : ℕ → PageIterator → S → List (Result AnmlDocument)
  pages zero it s = []
  pages (suc n) it s =
      let ((it', s'), item) = next_page fetch_url it s in item_of item (pages n it' s')

  abbrev pub after_fetch :
      Result AnmlDocument → (AnmlDocument → List (Result AnmlDocument)) → List (Result AnmlDocument)
  after_fetch (err e) rest = err e ∷ []
  after_fetch (ok doc) rest = ok doc ∷ rest doc

  -- The documents that the links lead to, by the links alone: up to `n` of them, each by the link of
  -- the one before it, and an error as the last.
  abbrev pub linked : ℕ → Option Text → Option Text → S → List (Result AnmlDocument)
  linked zero data_id url s = []
  linked (suc n) data_id none s = []
  linked (suc n) data_id (some url) s =
      after_fetch (fetch_url url s).1
        (λ doc. linked n data_id (next_url doc data_id) (fetch_url url s).0)

  -- An iterator behind its first document.
  abbrev pub going : Option Text → Option Text → Option ℕ → PageIterator
  going data_id next total = record {
    next = next;
    data_id = data_id;
    total = total;
    first_doc = none;
  }
