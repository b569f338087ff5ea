-- ===== src/Disclosure/Consent/Snapshot.antt =====
-- Export and restore of the consent store of src/disclosure/consent.rs.
use anml_client_rust.Common.{
  ℕ, true, false, Option, none, some, [], ◌∷◌, ◌≡◌, refl, arith, Bool-cases, inl, inr, Text, ◌∙◌,
}
use anml_client_rust.Common.Assoc.{get, insert, remove, get-remove}
use anml_client_rust.Config.{Origin}
use anml_client_rust.Disclosure.Matching.{ConsentScope}
use anml_client_rust.Disclosure.Consent.{
  ConsentBasis, ConsentKey, ConsentGrant, ConsentStore, key_eq, key_eq_iff, key_at, key_of, grant,
  revoke, values, key_instance, export_grants, insert_all, restore_grants,
}

-- Each grant lies under its own key, and no key is there twice: the invariant of the map.
abbrev pub IsStore : ConsentStore → Type 0
IsStore [] = Unit
IsStore ((k, g) ∷ grants) = (k ≡ key_of g) × (get k grants ≡ none) × IsStore grants

remove-IsStore :
    (k : ConsentKey) (grants : ConsentStore) → IsStore grants → IsStore (remove k grants)
remove-IsStore k [] h = tt
remove-IsStore k ((j, g) ∷ grants) (e, fresh, h) =
    ground (arith, remove-IsStore k grants h, get-remove k j grants)

-- Where each grant lies under its own key and no key is there twice, granting and revoking keep
-- it so.
pub grant-revoke-IsStore :
    (now : ℕ) (f : Text) (o : Origin) (s : ConsentScope) (b : ConsentBasis) (grants : ConsentStore)
    → IsStore grants
    → IsStore (grant now f o s b grants) × IsStore (revoke f o s grants).0
unfolding grant revoke
grant-revoke-IsStore now f o s b grants h =
    let r = remove-IsStore (key_at f o s) grants h in
    (
      (
        refl,
        ground (
          arith,
          get-remove (key_at f o s) (key_at f o s) grants,
          key_eq_iff (key_at f o s) (key_at f o s),
        ),
        r,
      ),
      r,
    )

or_else : Option ConsentGrant → Option ConsentGrant → Option ConsentGrant
or_else none d = d
or_else (some g) d = some g

or_else-none : (o : Option ConsentGrant) → or_else o none ≡ o
unfolding or_else
or_else-none none = refl
or_else-none (some g) = refl

get-insert_all :
    (k : ConsentKey) (grants store : ConsentStore)
    → IsStore grants
    → get k (insert_all (values grants) store) ≡ or_else (get k grants) (get k store)
unfolding insert_all or_else
get-insert_all k [] store h = refl
get-insert_all k ((j, g) ∷ grants) store (e, fresh, h) = elim (Bool-cases (key_eq j k)) [
  | inl same ↦
      let here : get k grants ≡ none = rw ((key_eq_iff j k).0 same) at fresh in
      let taken : key_eq (key_of g) k ≡ true = rw e at same in
      get-insert_all k grants (insert (key_of g) g store) h ∙ rw (here, taken, same)
  | inr other ↦
      let left : key_eq (key_of g) k ≡ false = rw e at other in
      get-insert_all k grants (insert (key_of g) g store) h
      ∙ rw (other, left, get-remove (key_of g) k store, left)
]

-- Where each grant of a store lies under its own key, and whatever another store holds before, restoring an exported store makes every lookup answer as it did
-- in the store that was exported.
pub restore_grants-export_grants :
    (k : ConsentKey) (grants before : ConsentStore)
    → IsStore grants
    → get k (restore_grants (export_grants grants) before) ≡ get k grants
unfolding restore_grants export_grants or_else
restore_grants-export_grants k grants before h =
    get-insert_all k grants [] h ∙ or_else-none (get k grants)
