-- ===== src/Action/Execute/Readable.antt =====
-- The JSON bodies that `execute_action` of src/action/mod.rs sends.
use anml_client_rust.Common.{ℕ, true, some, List, ◌≡◌, map, length}
use anml_client_rust.Action.Params.{ParamValue, show_float}
use anml_client_rust.Action.Params.Objects.{IsBare}
use anml_client_rust.Action.Params.Members.{entry_of, distinct, names, read_object}
use anml_client_rust.Action.Prepare.{Platform}

module _ (platform : Platform)
    (shows : (n : ℕ)
      → platform.floats.is_finite n ≡ true
      → IsBare (show_float platform.floats n)) where
  -- The body carries the values of the action.
  abbrev pub Reads : List ParamValue → List ℕ → Type 0
  Reads values body =
      read_object (length values) body
      ≡ some (map (entry_of platform.floats values) (distinct (names values)))
