-- ===== src/Common/Assoc.antt =====
-- A hash map as an association list with the key's first entry in force. The order of the entries
-- stands for the map's unspecified iteration order.
use Prim.Native.Nat.{◌≤◌}
use mathlib.Core.Path.{◌≡◌, refl}
use mathlib.Core.Bool.{true}
use mathlib.Core.List.{List, [], ◌∷◌}
use mathlib.Core.Option.{Option, none, some}
use native.Mathlib.Omega.{arith}
use anml_client_rust.Common.Tests.{if◌then◌else◌}
use anml_client_rust.Common.Lists.{length}
use anml_client_rust.Common.Bytes.{Eq}

pub beq_refl {ℓ} : {K : Type ℓ} ⦃e : Eq K⦄ (k : K) → e.beq k k ≡ true
beq_refl ⦃e⦄ k = (e.beq_iff k k).1 refl

module _ {ℓ κ} {K : Type ℓ} {V : Type κ} ⦃e : Eq K⦄ where
  abbrev pub get : K → List (K × V) → Option V
  get k [] = none
  get k ((j, v) ∷ m) = if e.beq j k then some v else get k m

  abbrev pub remove : K → List (K × V) → List (K × V)
  remove k [] = []
  remove k ((j, v) ∷ m) = if e.beq j k then remove k m else (j, v) ∷ remove k m

  abbrev pub insert : K → V → List (K × V) → List (K × V)
  insert k v m = (k, v) ∷ remove k m

  pub get-remove :
      (k j : K) (m : List (K × V)) → get j (remove k m) ≡ (if e.beq k j then none else get j m)
  get-remove k j [] = ground arith
  get-remove k j ((i, w) ∷ m) =
      ground (arith, e.beq_iff k j, e.beq_iff i k, e.beq_iff i j, get-remove k j m)

  pub get-insert :
      (k j : K) (v : V) (m : List (K × V))
      → get j (insert k v m) ≡ (if e.beq k j then some v else get j m)
  get-insert k j v m = ground (arith, get-remove k j m)

  pub length-remove-le : (k : K) (m : List (K × V)) → length (remove k m) ≤ length m
  length-remove-le k [] = omega arith
  length-remove-le k ((j, v) ∷ m) = ground (arith, length-remove-le k m)
