-- ===== src/Common/Lists.antt =====
-- Lists measured by native numbers, searches, and predicates by recursion on a list.
use Prim.Native.Nat.{ℕ, zero, suc, ◌+◌, ◌≤◌, ◌<◌}
use mathlib.Core.Path.{◌≡◌, refl, ap, sym, subst}
use mathlib.Core.Logic.{◌⊎◌, ◌↔◌, inl, inr}
use mathlib.Core.Bool.{Bool, true, false, ◌&&◌, ◌||◌}
use mathlib.Core.List.{List, [], ◌∷◌, ◌++◌}
use mathlib.Core.Option.{Option, none, some}
use native.Mathlib.Omega.{arith}
use anml_client_rust.Common.Tests.{if◌then◌else◌, Bool-cases}

module _ {ℓ} {A : Type ℓ} where
  abbrev pub length : List A → ℕ
  length [] = 0
  length (x ∷ xs) = suc (length xs)

  abbrev pub is_empty : List A → Bool
  is_empty [] = true
  is_empty (x ∷ xs) = false

  abbrev pub get_elem? : List A → ℕ → Option A
  get_elem? [] i = none
  get_elem? (x ∷ xs) zero = some x
  get_elem? (x ∷ xs) (suc i) = get_elem? xs i

  -- A write out of bounds changes nothing.
  abbrev pub set : List A → ℕ → A → List A
  set [] i v = []
  set (x ∷ xs) zero v = v ∷ xs
  set (x ∷ xs) (suc i) v = x ∷ set xs i v

  -- `iter().find(p)`, the first item that passes.
  abbrev pub find : (A → Bool) → List A → Option A
  find p [] = none
  find p (x ∷ xs) = if p x then some x else find p xs

  -- `retain(p)` and `filter(p)`
  abbrev pub retain : (A → Bool) → List A → List A
  retain p [] = []
  retain p (x ∷ xs) = if p x then x ∷ retain p xs else retain p xs

  abbrev pub all : (A → Bool) → List A → Bool
  all p [] = true
  all p (x ∷ xs) = p x && all p xs

  abbrev pub any : (A → Bool) → List A → Bool
  any p [] = false
  any p (x ∷ xs) = p x || any p xs

  abbrev pub replicate : ℕ → A → List A
  replicate zero a = []
  replicate (suc n) a = a ∷ replicate n a

  -- `position(p)`, counted from `i`
  abbrev pub position_from : ℕ → (A → Bool) → List A → Option ℕ
  position_from i p [] = none
  position_from i p (x ∷ xs) = if p x then some i else position_from (suc i) p xs

  abbrev pub position : (A → Bool) → List A → Option ℕ
  position p xs = position_from 0 p xs

  abbrev pub take : ℕ → List A → List A
  take zero xs = []
  take (suc n) [] = []
  take (suc n) (x ∷ xs) = x ∷ take n xs

  abbrev pub is_some : Option A → Bool
  is_some none = false
  is_some (some x) = true

module _ {ℓ κ} {A : Type ℓ} (P : A → Type κ) where
  abbrev pub All : List A → Type κ
  All [] = Unit
  All (x ∷ xs) = P x × All xs

  pub All-append : (xs ys : List A) → All xs → All ys → All (xs ++ ys)
  All-append [] ys h k = k
  All-append (x ∷ xs) ys (p, h) k = (p, All-append xs ys h k)

module _ {ℓ} {A : Type ℓ} where
  pub length-append : (xs ys : List A) → length (xs ++ ys) ≡ length xs + length ys
  length-append [] ys = omega arith
  length-append (x ∷ xs) ys = omega (arith, length-append xs ys)

  pub length-retain-le : (p : A → Bool) (xs : List A) → length (retain p xs) ≤ length xs
  length-retain-le p [] = omega arith
  length-retain-le p (x ∷ xs) = ground (arith, length-retain-le p xs)

  pub length-set : (xs : List A) (i : ℕ) (v : A) → length (set xs i v) ≡ length xs
  length-set [] i v = refl
  length-set (x ∷ xs) zero v = refl
  length-set (x ∷ xs) (suc i) v = ap suc (length-set xs i v)

  pub length-replicate : (n : ℕ) (a : A) → length (replicate n a) ≡ n
  length-replicate zero a = refl
  length-replicate (suc n) a = ap suc (length-replicate n a)

  -- A position that is found lies inside the list.
  pub position_from_lt :
      (i : ℕ) (p : A → Bool) (xs : List A) (j : ℕ)
      → position_from i p xs ≡ some j
      → (i ≤ j) × (j < i + length xs)
  position_from_lt i p [] j h = ground arith
  position_from_lt i p (x ∷ xs) j h = ground (arith, position_from_lt (suc i) p xs j)

  pub retain-retain :
      (p q : A → Bool) (xs : List A) → retain p (retain q xs) ≡ retain (λ x. q x && p x) xs
  retain-retain p q [] = refl
  retain-retain p q (x ∷ xs) = ground (arith, retain-retain p q xs)

  pub All-retain {κ} :
      (P : A → Type κ) (p : A → Bool) (xs : List A) → All P xs → All P (retain p xs)
  All-retain P p [] h = tt
  All-retain P p (x ∷ xs) (h, t) = ground (arith, All-retain P p xs t)

pub All-map {ℓ κ υ} :
    {A : Type ℓ} (P : A → Type κ) (Q : A → Type υ) (xs : List A)
    → ((x : A) → P x → Q x)
    → All P xs
    → All Q xs
All-map P Q [] f h = tt
All-map P Q (x ∷ xs) f (h, hs) = (f x h, All-map P Q xs f hs)

-- Membership by recursion, which computes at a list of given items.
abbrev pub Member : {A : Type 0} → A → List A → Type 0
Member x [] = ⊥
Member x (y ∷ ys) = (x ≡ y) ⊎ Member x ys

module _ {A : Type 0} where
  pub All-Member {κ} : (P : A → Type κ) {x : A} (xs : List A) → All P xs → Member x xs → P x
  All-Member P [] h m = absurd m
  All-Member P (y ∷ ys) (p, h) (inl e) = subst P (sym e) p
  All-Member P (y ∷ ys) (p, h) (inr m) = All-Member P ys h m

  -- A test for one item decides whether it is a member.
  pub any-Member :
      (p : A → Bool) (x : A) (xs : List A)
      → ((y : A) → (p y ≡ true) ↔ (x ≡ y))
      → (any p xs ≡ true) ↔ Member x xs
  any-Member p x [] decides = ground arith
  any-Member p x (y ∷ ys) decides = ground (arith, decides y, any-Member p x ys decides)

  pub is_some_iff : (o : Option A) → (is_some o ≡ true) ↔ ((x : A) × (o ≡ some x))
  is_some_iff none = ((λ h. ground (arith, h)), λ (x, h). ground (arith, h))
  is_some_iff (some x) = ((λ h. (x, refl)), λ h. refl)

  pub find-some :
      (p : A → Bool) (xs : List A) {x : A} → find p xs ≡ some x → (p x ≡ true) × Member x xs
  find-some p [] h = ground arith
  find-some p (y ∷ ys) {x} h = ground (arith, find-some p ys {x = x})

  pub find-none : (p : A → Bool) (xs : List A) → find p xs ≡ none → All (λ x. p x ≡ false) xs
  find-none p [] h = tt
  find-none p (y ∷ ys) h = ground (arith, find-none p ys)

  -- The first item of a list that passes a test.
  abbrev pub IsFirst : (A → Bool) → A → List A → Type 0
  IsFirst p x xs =
      (before : List A) × (after : List A) × (xs ≡ before ++ (x ∷ after))
      × All (λ y. p y ≡ false) before
      × (p x ≡ true)

  pub find-IsFirst : (p : A → Bool) (xs : List A) {x : A} → find p xs ≡ some x → IsFirst p x xs
  find-IsFirst p [] h = ground arith
  find-IsFirst p (y ∷ ys) {x} h = elim (Bool-cases (p y)) [
    | inl here ↦ let e : y ≡ x = ground arith in ([], ys, rw e, tt, rw (← e) here)
    | inr later ↦
        let (before, after, e, none_before, passes) = find-IsFirst p ys {x = x} (ground arith) in
        (y ∷ before, after, ap (◌∷◌ y) e, (later, none_before), passes)
  ]
