-- ===== src/Action/Prepare/Shown.antt =====
-- The values that the checks of src/action/mod.rs let through, in the JSON encoding.
use anml_client_rust.Common.{
  ℕ, true, false, Option, none, some, List, [], ◌∷◌, ◌++◌, ◌≡◌, refl, sym, subst, Text, text_eq,
  text_eq_refl, find, All, All-append, append_assoc, is_some, inl, inr, Option-cases,
}
use anml_client_rust.Document.{ParamType, AnmlDocument, AnmlParam}
use anml_client_rust.Error.{ok}
use anml_client_rust.Action.Params.{
  ParamValue, show_float, has_name, user_value, supplied, collect_params,
}
use anml_client_rust.Action.Params.Objects.{IsBare, IsShown}
use anml_client_rust.Action.Validation.{has_type}
use anml_client_rust.Action.Validation.Bounds.{HasType, has_type_iff}
use anml_client_rust.Action.Validation.Constraints.{Asked, Meets}
use anml_client_rust.Action.Validation.Shown.{has_type-IsShown}
use anml_client_rust.Action.Prepare.{Platform, ActionContext, Prepared, list_or, value_of, prepare}
use anml_client_rust.Action.Prepare.Passed.{IsValid, prepare-Cleared}

-- No two definitions have the same name.
abbrev pub IsDistinct : List AnmlParam → Type 0
IsDistinct [] = Unit
IsDistinct (d ∷ ds) = All (λ e. text_eq d.name e.name ≡ false) ds × IsDistinct ds

-- None of the values is of the name of the definition.
abbrev IsNew : List ParamValue → AnmlParam → Type 0
IsNew values d = All (λ v. has_name d.name v ≡ false) values

find-behind :
    (n : Text) (before after : List ParamValue) (q : ParamValue)
    → All (λ v. has_name n v ≡ false) before
    → has_name n q ≡ true
    → find (has_name n) (before ++ (q ∷ after)) ≡ some q
find-behind n [] after q h k = rw k refl
find-behind n (v ∷ before) after q (h, hs) k = rw h (find-behind n before after q hs k)

IsNew-extend :
    (before : List ParamValue) (q : ParamValue) (ds : List AnmlParam)
    → All (IsNew before) ds
    → All (λ e. text_eq q.name e.name ≡ false) ds
    → All (IsNew (before ++ (q ∷ []))) ds
IsNew-extend before q [] h k = tt
IsNew-extend before q (d ∷ ds) (h, hs) (k, ks) =
    (All-append _ before (q ∷ []) h (k, tt), IsNew-extend before q ds hs ks)

All-IsNew : (ds : List AnmlParam) → All (IsNew []) ds
All-IsNew [] = tt
All-IsNew (d ∷ ds) = (tt, All-IsNew ds)

abbrev value_for : AnmlParam → Text → ParamValue
value_for d v = record { name = d.name; value = v; param_type = d.param_type }

collect_params-nil : (user_params : List (Text × Text)) → collect_params [] user_params ≡ []
unfolding collect_params
collect_params-nil user_params = refl

collect_params-skipped :
    (d : AnmlParam) (ds : List AnmlParam) (user_params : List (Text × Text))
    → supplied (user_value d.name user_params) d.default ≡ none
    → collect_params (d ∷ ds) user_params ≡ collect_params ds user_params
unfolding collect_params
collect_params-skipped d ds user_params h = rw (h, collect_params) refl

collect_params-added :
    (d : AnmlParam) (ds : List AnmlParam) (user_params : List (Text × Text)) (v : Text)
    → supplied (user_value d.name user_params) d.default ≡ some v
    → collect_params (d ∷ ds) user_params ≡ value_for d v ∷ collect_params ds user_params
unfolding collect_params
collect_params-added d ds user_params v h = rw (h, collect_params) refl

module _ (platform : Platform)
    (shows : (n : ℕ)
      → platform.floats.is_finite n ≡ true
      → IsBare (show_float platform.floats n)) where
  asked_type :
      (d : AnmlParam) (v : Text) (t : ParamType)
      → d.param_type ≡ some t
      → Meets platform.floats (λ s. is_some (platform.net.parse_url s)) d (some v)
      → has_type platform.floats (λ s. is_some (platform.net.parse_url s)) v t ≡ true
  asked_type d v t e (typed, pattern, low, high, options) =
      (has_type_iff platform.floats (λ s. is_some (platform.net.parse_url s)) v t).1 (
        subst (λ o. Asked o (HasType platform.floats (λ s. is_some (platform.net.parse_url s)) v)) e
          typed)

  -- A value that meets its definition can be told from what surrounds it in the body.
  value-IsShown :
      (d : AnmlParam) (v : Text)
      → Meets platform.floats (λ s. is_some (platform.net.parse_url s)) d (some v)
      → IsShown platform.floats (value_for d v)
  value-IsShown d v meets = by_type d.param_type refl
    where
      by_type : (o : Option ParamType) → d.param_type ≡ o → IsShown platform.floats (value_for d v)
      by_type none e = rw e tt
      by_type (some t) e =
          has_type-IsShown platform.floats (λ s. is_some (platform.net.parse_url s)) shows
            (value_for d v) t e (asked_type d v t e meets)

  collected-IsShown :
      (user_params : List (Text × Text)) (before : List ParamValue) (ds : List AnmlParam)
      → IsDistinct ds
      → All (IsNew before) ds
      → All (IsValid platform (before ++ collect_params ds user_params)) ds
      → All (IsShown platform.floats) (collect_params ds user_params)
  collected-IsShown user_params before [] apart fresh valid =
      subst (All (IsShown platform.floats)) (sym (collect_params-nil user_params)) tt
  collected-IsShown user_params before (d ∷ ds) (apart, others) (new, fresh) (first, valid) =
      elim (Option-cases (supplied (user_value d.name user_params) d.default)) [
        | inl missing ↦
            let e = collect_params-skipped d ds user_params missing in
            rw e (
              collected-IsShown user_params before ds others fresh
                (subst (λ c. All (IsValid platform (before ++ c)) ds) e valid))
        | inr (v, given) ↦
            let e = collect_params-added d ds user_params v given in
            let rest = collect_params ds user_params in
            let found = find-behind d.name before rest (value_for d v) new (text_eq_refl d.name) in
            let meets =
              subst
                (λ o.
                  Meets platform.floats (λ s. is_some (platform.net.parse_url s)) d (value_of o))
                found (subst (λ c. IsValid platform (before ++ c) d) e first) in
            let valid' =
              subst (λ c. All (IsValid platform c) ds)
                (sym (append_assoc before (value_for d v ∷ []) rest))
                (subst (λ c. All (IsValid platform (before ++ c)) ds) e valid) in
            rw e (
              value-IsShown d v meets,
              collected-IsShown user_params (before ++ (value_for d v ∷ [])) ds others
                  (IsNew-extend before (value_for d v) ds fresh apart) valid',
            )
      ]

  pub prepared-IsShown :
      (ctx : ActionContext) (doc : AnmlDocument) (action_id : Text)
      (user_params : List (Text × Text)) (p : Prepared)
      → prepare platform ctx doc action_id user_params ≡ ok p
      → IsDistinct (list_or p.action.params)
      → All (IsShown platform.floats) p.values
  prepared-IsShown ctx doc action_id user_params p h apart =
      let (first, endpoint, public, e, valid) =
        prepare-Cleared platform ctx doc action_id user_params p h in
      subst (All (IsShown platform.floats)) (sym e) (
        collected-IsShown user_params [] (list_or p.action.params) apart
          (All-IsNew (list_or p.action.params))
          (subst (λ c. All (IsValid platform c) (list_or p.action.params)) e valid))
