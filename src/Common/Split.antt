-- ===== src/Common/Split.antt =====
-- The methods of `str` that the client calls, on ASCII text.
use Prim.Native.Nat.{ℕ}
use mathlib.Core.Bool.{Bool, true, false, ◌&&◌, ◌||◌}
use mathlib.Core.Path.{◌≡◌, refl}
use mathlib.Core.Logic.{◌↔◌}
use native.Mathlib.Omega.{arith}
use mathlib.Core.List.{List, [], ◌∷◌, ◌++◌}
use mathlib.Core.Option.{Option, none, some}
use anml_client_rust.Common.Tests.{◌==◌, leb, if◌then◌else◌}
use anml_client_rust.Common.Lists.{is_empty}
use anml_client_rust.Common.Bytes.{Text}

abbrev pub starts_with : Text → Text → Bool
starts_with [] s = true
starts_with (p ∷ pre) [] = false
starts_with (p ∷ pre) (c ∷ s) = (p == c) && starts_with pre s

abbrev pub Begins : Text → Text → Type 0
Begins pre s = (rest : Text) × (s ≡ pre ++ rest)

starts_with-Begins : (pre s : Text) → starts_with pre s ≡ true → Begins pre s
starts_with-Begins [] s h = (s, refl)
starts_with-Begins (p ∷ pre) [] h = ground arith
starts_with-Begins (p ∷ pre) (c ∷ s) h =
    let (rest, e) = starts_with-Begins pre s (ground arith) in
    let same : c ≡ p = ground arith in (rest, λ i. same i ∷ e i)

pub starts_with-append : (pre rest : Text) → starts_with pre (pre ++ rest) ≡ true
starts_with-append [] rest = refl
starts_with-append (p ∷ pre) rest = ground (arith, starts_with-append pre rest)

pub starts_with_iff : (pre s : Text) → (starts_with pre s ≡ true) ↔ Begins pre s
starts_with_iff pre s = (starts_with-Begins pre s, λ (rest, e). rw e (starts_with-append pre rest))

-- The last byte is `c`.
abbrev pub ends_with : ℕ → Text → Bool
ends_with c [] = false
ends_with c (d ∷ []) = c == d
ends_with c (d ∷ e ∷ s) = ends_with c (e ∷ s)

abbrev pub is_space : ℕ → Bool
is_space c = (c == b' ') || (leb 9 c && leb c 13)

abbrev pub trim_start : Text → Text
trim_start [] = []
trim_start (c ∷ s) = let rest = trim_start s in if is_space c then rest else c ∷ s

abbrev pub trim_end : Text → Text
trim_end [] = []
trim_end (c ∷ s) = let rest = trim_end s in if is_space c && is_empty rest then [] else c ∷ rest

abbrev pub trim : Text → Text
trim s = trim_end (trim_start s)

-- `trim_end_matches` of one byte
abbrev pub trim_end_matches : ℕ → Text → Text
trim_end_matches b [] = []
trim_end_matches b (c ∷ s) =
    let rest = trim_end_matches b s in if (c == b) && is_empty rest then [] else c ∷ rest

abbrev pub cons_head : ℕ → List Text → List Text
cons_head c [] = (c ∷ []) ∷ []
cons_head c (s ∷ rest) = (c ∷ s) ∷ rest

-- `split` at one byte; there is always a piece.
abbrev pub split : ℕ → Text → List Text
split b [] = [] ∷ []
split b (c ∷ s) = let rest = split b s in if c == b then [] ∷ rest else cons_head c rest

-- `split_once` at one byte
abbrev pub split_once : ℕ → Text → Option (Text × Text)
split_once b [] = none
split_once b (c ∷ s) =
    let rest = split_once b s in
    if c == b then some ([], s) else elim rest [ none ↦ none | some (u, v) ↦ some (c ∷ u, v) ]

-- `join` with a text
abbrev pub join_with : Text → List Text → Text
join_with sep [] = []
join_with sep (s ∷ []) = s
join_with sep (s ∷ t ∷ rest) = s ++ sep ++ join_with sep (t ∷ rest)
