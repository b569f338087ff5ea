-- ===== src/Disclosure/Consent/Checks.antt =====
-- What a consent check of src/disclosure/consent.rs answers, and how grants and revocations change it.
use anml_client_rust.Common.{
  Bool, false, refl, sym, ap, ◌∙◌, inl, inr, Bool-cases, ℕ, true, none, some, [], ◌∷◌, ◌≡◌, ◌≢◌,
  ◌⊎◌, ◌↔◌, find, is_some, Text, text_eq_iff, arith,
}
use anml_client_rust.Common.Assoc.{get, get-remove, beq_refl}
use anml_client_rust.Config.{Origin}
use anml_client_rust.Disclosure.Matching.{ConsentScope, session, global}
use anml_client_rust.Disclosure.Consent.{
  ConsentBasis, ConsentKey, ConsentStore, key_eq, key_eq_iff, key_at, grant, is_global_for, check,
  revoke, key_instance,
}

-- Some entry of the store is a global grant for the field, from whatever origin.
abbrev pub HasGlobal : Text → ConsentStore → Type 0
HasGlobal f [] = ⊥
HasGlobal f ((k, g) ∷ grants) = ((k.field ≡ f) × (k.scope ≡ global)) ⊎ HasGlobal f grants

HasGlobal-find :
    (f : Text) (grants : ConsentStore)
    → (is_some (find (is_global_for f) grants) ≡ true) ↔ HasGlobal f grants
HasGlobal-find f [] = ground arith
HasGlobal-find f ((k, g) ∷ grants) = ground (arith, text_eq_iff k.field f, HasGlobal-find f grants)

-- A check succeeds exactly when the key itself has a grant, or the scope is wider than the session
-- and some origin has a global grant for the field. So a session check never sees another origin's
-- grant, and an origin check accepts a global grant.
pub check-is_some_iff :
    (f : Text) (o : Origin) (s : ConsentScope) (grants : ConsentStore)
    → (is_some (check f o s grants) ≡ true)
      ↔ ((is_some (get (key_at f o s) grants) ≡ true) ⊎ ((s ≢ session) × HasGlobal f grants))
unfolding check
check-is_some_iff f o s grants = ground (arith, HasGlobal-find f grants)

-- A grant is seen by the next check of its key, with its basis, and leaves every other key's own
-- grant as it was. A revocation reports whether the key had a grant, and takes exactly that away.
pub get-grant-revoke :
    (now : ℕ) (f : Text) (o : Origin) (s : ConsentScope) (b : ConsentBasis) (grants : ConsentStore)
    → (check f o s (grant now f o s b grants) ≡ some b)
      × ((k : ConsentKey) → k ≢ key_at f o s → get k (grant now f o s b grants) ≡ get k grants)
      × ((revoke f o s (grant now f o s b grants)).1 ≡ true)
      × (get (key_at f o s) (revoke f o s grants).0 ≡ none)
      × ((k : ConsentKey) → k ≢ key_at f o s → get k (revoke f o s grants).0 ≡ get k grants)
unfolding check grant revoke
get-grant-revoke now f o s b grants = (
  ground (arith, same),
  λ k h. ground (arith, key_eq_iff (key_at f o s) k, get-remove (key_at f o s) k grants),
  ground (arith, same),
  ground (arith, same, get-remove (key_at f o s) (key_at f o s) grants),
  λ k h. ground (arith, key_eq_iff (key_at f o s) k, get-remove (key_at f o s) k grants),
)
  where
    same : key_eq (key_at f o s) (key_at f o s) ≡ true
    same = beq_refl (key_at f o s)

-- Some key with that field and the global scope has a grant.
abbrev GlobalKey : Text → ConsentStore → Type 0
GlobalKey f grants =
    (k : ConsentKey) × (k.field ≡ f) × (k.scope ≡ global) × (is_some (get k grants) ≡ true)

HasGlobal-GlobalKey : (f : Text) (grants : ConsentStore) → HasGlobal f grants → GlobalKey f grants
HasGlobal-GlobalKey f [] h = absurd h
HasGlobal-GlobalKey f ((k, g) ∷ grants) (inl (field, scope)) =
    (k, field, scope, rw (beq_refl k) refl)
HasGlobal-GlobalKey f ((j, g) ∷ grants) (inr h) =
    let (k, field, scope, has) = HasGlobal-GlobalKey f grants h in
    (k, field, scope, ground (arith, has))

GlobalKey-HasGlobal : (f : Text) (grants : ConsentStore) → GlobalKey f grants → HasGlobal f grants
GlobalKey-HasGlobal f [] (k, field, scope, has) = ground arith
GlobalKey-HasGlobal f ((j, g) ∷ grants) (k, field, scope, has) = elim (Bool-cases (key_eq j k)) [
  | inl same ↦
      let e : j ≡ k = (key_eq_iff j k).0 same in
      inl (ap (λ x. x.field) e ∙ field, ap (λ x. x.scope) e ∙ scope)
  | inr other ↦ inr (GlobalKey-HasGlobal f grants (k, field, scope, rw other at has))
]

bool_path : (x y : Bool) → (x ≡ true → y ≡ true) → (y ≡ true → x ≡ true) → x ≡ y
bool_path true y f g = sym (f refl)
bool_path false y f g = ground arith

-- A check that succeeds in one store succeeds in every other that holds the same under each key.
check-same :
    (f : Text) (o : Origin) (s : ConsentScope) (a b : ConsentStore)
    → ((k : ConsentKey) → get k a ≡ get k b)
    → is_some (check f o s a) ≡ true
    → is_some (check f o s b) ≡ true
check-same f o s a b same h = elim ((check-is_some_iff f o s a).0 h) [
  | inl own ↦ (check-is_some_iff f o s b).1 (inl (rw (same (key_at f o s)) at own))
  | inr (wide, held) ↦
      let (k, field, scope, has) = HasGlobal-GlobalKey f a held in
      (check-is_some_iff f o s b).1
        (inr (wide, GlobalKey-HasGlobal f b (k, field, scope, rw (same k) at has)))
]

pub check-get :
    (f : Text) (o : Origin) (s : ConsentScope) (a b : ConsentStore)
    → ((k : ConsentKey) → get k a ≡ get k b)
    → is_some (check f o s a) ≡ is_some (check f o s b)
check-get f o s a b same =
    bool_path _ _ (check-same f o s a b same) (check-same f o s b a (λ k. sym (same k)))
