-- ===== src/Disclosure/Consent/History.antt =====
-- What the consent store of src/disclosure/consent.rs promises, read from the calls alone: a key has
-- the basis of its last grant, unless it was revoked or everything was cleared since.
use anml_client_rust.Common.{
  ℕ, true, Option, none, some, List, [], ◌∷◌, ◌≡◌, ◌≢◌, ◌⊎◌, inl, inr, refl, sym, ap, ◌∙◌, subst,
  if◌then◌else◌, find, is_some, Text, text_eq_iff, arith, Option-cases,
}
use anml_client_rust.Common.Assoc.{get, get-remove}
use anml_client_rust.Config.{Origin}
use anml_client_rust.Disclosure.Matching.{ConsentScope, session, global}
use anml_client_rust.Disclosure.Consent.{
  ConsentBasis, ConsentGrant, ConsentKey, ConsentStore, key_eq, key_eq_iff, key_at, key_instance,
  grant, is_global_for, check, revoke, clear,
}

-- A call that changes the store.
pub data Event : Type 0 where
  granted : ℕ → Text → Origin → ConsentScope → ConsentBasis → Event
  revoked : Text → Origin → ConsentScope → Event
  cleared : Event

-- The store after the calls, the newest first.
abbrev pub after : List Event → ConsentStore
after [] = []
after (granted now f o s b ∷ events) = grant now f o s b (after events)
after (revoked f o s ∷ events) = (revoke f o s (after events)).0
after (cleared ∷ events) = clear (after events)

-- The basis that the calls leave a key.
abbrev pub standing : ConsentKey → List Event → Option ConsentBasis
standing k [] = none
standing k (granted now f o s b ∷ events) =
    if key_eq (key_at f o s) k then some b else standing k events
standing k (revoked f o s ∷ events) = if key_eq (key_at f o s) k then none else standing k events
standing k (cleared ∷ events) = none

abbrev pub granted_basis : Option ConsentGrant → Option ConsentBasis
granted_basis none = none
granted_basis (some g) = some g.basis

get-after :
    (k : ConsentKey) (events : List Event)
    → granted_basis (get k (after events)) ≡ standing k events
unfolding grant revoke clear
get-after k [] = refl
get-after k (granted now f o s b ∷ events) =
    ground (arith, get-remove (key_at f o s) k (after events), get-after k events)
get-after k (revoked f o s ∷ events) =
    ground (arith, get-remove (key_at f o s) k (after events), get-after k events)
get-after k (cleared ∷ events) = refl

abbrev pub global_key : Text → Text → ConsentKey
global_key f t = record { field = f; origin = t; scope = global }

-- The first global entry for a field is the one that lies under its key.
find-get :
    (f : Text) (grants : ConsentStore) (k : ConsentKey) (g : ConsentGrant)
    → find (is_global_for f) grants ≡ some (k, g)
    → (k.field ≡ f) × (k.scope ≡ global) × (get k grants ≡ some g)
find-get f [] k g h = ground arith
find-get f ((j, w) ∷ grants) k g h =
    ground (arith, key_eq_iff j k, text_eq_iff j.field f, find-get f grants k g)

get-find :
    (f t : Text) (grants : ConsentStore) (g : ConsentGrant)
    → get (global_key f t) grants ≡ some g
    → is_some (find (is_global_for f) grants) ≡ true
get-find f t [] g h = ground arith
get-find f t ((j, w) ∷ grants) g h =
    ground (arith, key_eq_iff j (global_key f t), text_eq_iff j.field f, get-find f t grants g)

-- Some origin has a standing global grant for the field, on this basis.
abbrev pub StandsGlobally : Text → ConsentBasis → List Event → Type 0
StandsGlobally f b events = (t : Text) × (standing (global_key f t) events ≡ some b)

-- What a check with this scope may answer: its own key's basis, or, where that has none and the
-- scope is wider than the session, that of a global grant.
abbrev pub Stands : Text → Origin → ConsentScope → ConsentBasis → List Event → Type 0
Stands f o s b events =
    (standing (key_at f o s) events ≡ some b)
    ⊎ ((standing (key_at f o s) events ≡ none) × (s ≢ session) × StandsGlobally f b events)

global-stands :
    (f : Text) (events : List Event) (k : ConsentKey) (g : ConsentGrant)
    → find (is_global_for f) (after events) ≡ some (k, g)
    → StandsGlobally f g.basis events
global-stands f events k g h =
    let (field, scope, found) = find-get f (after events) k g h in
    let same : global_key f k.origin ≡ k = ground (arith, field, scope) in
    (k.origin, ap (λ j. standing j events) same ∙ sym (get-after k events) ∙ ap granted_basis found)

stands-global :
    (f : Text) (events : List Event) (b : ConsentBasis)
    → StandsGlobally f b events
    → is_some (find (is_global_for f) (after events)) ≡ true
stands-global f events b (t, h) = elim (Option-cases (get (global_key f t) (after events))) [
  | inr (g, e) ↦ get-find f t (after events) g e
  | inl missing ↦ let e = get-after (global_key f t) events in ground (arith, h, e, missing)
]

check-Stands :
    (f : Text) (o : Origin) (s : ConsentScope) (events : List Event) (b : ConsentBasis)
    → check f o s (after events) ≡ some b
    → Stands f o s b events
unfolding check
check-Stands f o s events b h = elim (Option-cases (get (key_at f o s) (after events))) [
  | inr (g, e) ↦ inl (
      sym (get-after (key_at f o s) events)
      ∙ ap granted_basis e
      ∙ ground (arith, (rw (check, e) at h)))
  | inl missing ↦
      let none_own = sym (get-after (key_at f o s) events) ∙ ap granted_basis missing in
      elim (Option-cases (find (is_global_for f) (after events))) [
        | inl nowhere ↦ ground (arith, (rw (check, missing, nowhere) at h))
        | inr ((k, g), e) ↦
            let answer = (rw (check, missing, e) at h) in
            let basis : g.basis ≡ b = ground (arith, answer) in
            inr (
              none_own,
              ground (arith, answer),
              subst (λ x. StandsGlobally f x events) basis (global-stands f events k g e),
            )
      ]
]

Stands-check :
    (f : Text) (o : Origin) (s : ConsentScope) (events : List Event) (b : ConsentBasis)
    → Stands f o s b events
    → is_some (check f o s (after events)) ≡ true
unfolding check
Stands-check f o s events b h = elim (Option-cases (get (key_at f o s) (after events))) [
  | inr (g, e) ↦ rw (check, e) refl
  | inl missing ↦
      let none_own = sym (get-after (key_at f o s) events) ∙ ap granted_basis missing in
      elim h [
        | inl own ↦ ground (arith, none_own, own)
        | inr (none_standing, wider, stands) ↦
            let found = stands-global f events b stands in ground (arith, found, missing)
      ]
]

own-check :
    (f : Text) (o : Origin) (s : ConsentScope) (events : List Event) (b : ConsentBasis)
    → standing (key_at f o s) events ≡ some b
    → check f o s (after events) ≡ some b
unfolding check
own-check f o s events b h = elim (Option-cases (get (key_at f o s) (after events))) [
  | inr (g, e) ↦ rw (check, e) (sym (ap granted_basis e) ∙ get-after (key_at f o s) events ∙ h)
  | inl missing ↦
      let none_own = sym (get-after (key_at f o s) events) ∙ ap granted_basis missing in
      ground (arith, none_own, h)
]

-- After any calls that grant, revoke or clear, a check whose key has a standing basis answers this
-- basis. Any basis that a check answers is that of its key, or, where that has none and the scope is
-- wider than the session, the standing basis of some origin's global grant for the field; and where
-- there is such a basis, the check answers one. Which origin's it is, is left to the order of the
-- map.
pub check-after :
    (f : Text) (o : Origin) (s : ConsentScope) (events : List Event)
    → ((b : ConsentBasis)
        → standing (key_at f o s) events ≡ some b
        → check f o s (after events) ≡ some b)
      × ((b : ConsentBasis) → check f o s (after events) ≡ some b → Stands f o s b events)
      × ((b : ConsentBasis) → Stands f o s b events → is_some (check f o s (after events)) ≡ true)
check-after f o s events =
    (own-check f o s events, check-Stands f o s events, Stands-check f o s events)
