-- ===== src/Disclosure/Consent.antt =====
-- src/disclosure/consent.rs: the consent store, as the value behind its lock. Each operation holds
-- the lock for its whole body, so it is a function on the map. `granted_at` is the instant at which
-- the clock is read.
pub mod Checks
pub mod History
pub mod Snapshot
use anml_client_rust.Common.{
  ℕ, Bool, true, false, ◌||◌, ◌&&◌, Option, none, some, List, [], ◌∷◌, ◌≡◌, refl, ◌↔◌,
  if◌then◌else◌, find, retain, map, is_some, Text, codes, text_eq, text_eq_iff, Eq, arith,
}
use anml_client_rust.Common.Assoc.{get, insert, remove}
use anml_client_rust.Config.{Origin, origin_text}
use anml_client_rust.Disclosure.Matching.{ConsentScope, session, origin, global}

pub data ConsentBasis : Type 0 where
  explicit implicit delegated : ConsentBasis

-- `to_string`
abbrev pub basis_text : ConsentBasis → Text
basis_text explicit = codes "explicit"
basis_text implicit = codes "implicit"
basis_text delegated = codes "delegated"

pub record ConsentKey : Type 0 where
  pub field : Text
  pub origin : Text
  pub scope : ConsentScope

pub record ConsentGrant : Type 0 where
  pub basis : ConsentBasis
  pub granted_at : Option ℕ
  pub field : Text
  pub origin : Text
  pub scope : ConsentScope

abbrev pub scope_eq : ConsentScope → ConsentScope → Bool
scope_eq session session = true
scope_eq origin origin = true
scope_eq global global = true
scope_eq _ _ = false

scope_eq_iff : (s t : ConsentScope) → (scope_eq s t ≡ true) ↔ (s ≡ t)
scope_eq_iff s t = ground arith

abbrev pub key_eq : ConsentKey → ConsentKey → Bool
key_eq a b =
    if text_eq a.field b.field
    then if text_eq a.origin b.origin then scope_eq a.scope b.scope else false
    else false

pub key_eq_iff : (a b : ConsentKey) → (key_eq a b ≡ true) ↔ (a ≡ b)
key_eq_iff a b = ground (
  arith,
  text_eq_iff a.field b.field,
  text_eq_iff a.origin b.origin,
  scope_eq_iff a.scope b.scope,
)

instance abbrev pub key_instance : Eq ConsentKey
key_instance = record { beq = key_eq; beq_iff = key_eq_iff }

abbrev pub ConsentStore : Type 0
ConsentStore = List (ConsentKey × ConsentGrant)

abbrev pub key_at : Text → Origin → ConsentScope → ConsentKey
key_at f o s = record { field = f; origin = origin_text o; scope = s }

unfoldable pub grant : ℕ → Text → Origin → ConsentScope → ConsentBasis → ConsentStore → ConsentStore
grant now f o s b grants =
    insert (key_at f o s)
      (record { basis = b; granted_at = some now; field = f; origin = origin_text o; scope = s })
      grants

-- The test of the loop over all entries.
abbrev pub is_global_for : Text → ConsentKey × ConsentGrant → Bool
is_global_for f (k, g) = if text_eq k.field f then scope_eq k.scope global else false

abbrev basis_of : Option (ConsentKey × ConsentGrant) → Option ConsentBasis
basis_of none = none
basis_of (some (k, g)) = some g.basis

unfoldable pub check : Text → Origin → ConsentScope → ConsentStore → Option ConsentBasis
check f o s grants = elim (get (key_at f o s) grants) [
  | some g ↦ some g.basis
  | none ↦
      if scope_eq s global || scope_eq s origin
      then basis_of (find (is_global_for f) grants)
      else none
]

unfoldable pub revoke : Text → Origin → ConsentScope → ConsentStore → ConsentStore × Bool
revoke f o s grants = (remove (key_at f o s) grants, is_some (get (key_at f o s) grants))

abbrev pub values : ConsentStore → List ConsentGrant
values [] = []
values ((k, g) ∷ grants) = g ∷ values grants

-- `list` with an origin filter; `none` lists all.
unfoldable pub list : Option Origin → ConsentStore → List ConsentGrant
list none grants = values grants
list (some o) grants = retain (λ g. text_eq g.origin (origin_text o)) (values grants)

unfoldable pub clear : ConsentStore → ConsentStore
clear grants = []

unfoldable pub export_grants : ConsentStore → List ConsentGrant
export_grants grants = values grants

abbrev pub key_of : ConsentGrant → ConsentKey
key_of g = record { field = g.field; origin = g.origin; scope = g.scope }

-- The loop of `restore_grants`.
unfoldable pub insert_all : List ConsentGrant → ConsentStore → ConsentStore
insert_all [] store = store
insert_all (g ∷ grants) store = insert_all grants (insert (key_of g) g store)

unfoldable pub restore_grants : List ConsentGrant → ConsentStore → ConsentStore
unfolding insert_all
restore_grants grants store = insert_all grants []
