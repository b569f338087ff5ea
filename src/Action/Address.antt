-- ===== src/Action/Address.antt =====
-- `is_private_ip` of src/action/mod.rs. An address is its octets: four for V4, sixteen for V6.
pub mod Ranges
use anml_client_rust.Common.{
  ℕ, ◌+◌, ◌*◌, ◌/◌, ◌%◌, Bool, true, false, ◌&&◌, ◌||◌, List, [], ◌∷◌, ◌==◌, text_eq,
}

pub data IpAddr : Type 0 where
  v4 : ℕ → ℕ → ℕ → ℕ → IpAddr
  v6 : List ℕ → IpAddr

-- The octet masked by 0xF0, and by 0xFE.
abbrev pub high_four : ℕ → ℕ
high_four o = o / 16 * 16

abbrev pub high_seven : ℕ → ℕ
high_seven o = o / 2 * 2

abbrev pub first_octet : List ℕ → ℕ
first_octet [] = 0
first_octet (o ∷ os) = o

unfoldable pub is_private_ip : IpAddr → Bool
is_private_ip (v4 a b c d) =
    (a == 127)
    || (a == 10)
    || ((a == 172) && (high_four b == 16))
    || ((a == 192) && (b == 168))
    || text_eq (a ∷ b ∷ c ∷ d ∷ []) (0 ∷ 0 ∷ 0 ∷ 0 ∷ [])
is_private_ip (v6 os) =
    text_eq os (0 ∷ 0 ∷ 0 ∷ 0 ∷ 0 ∷ 0 ∷ 0 ∷ 0 ∷ 0 ∷ 0 ∷ 0 ∷ 0 ∷ 0 ∷ 0 ∷ 0 ∷ 1 ∷ [])
    || (high_seven (first_octet os) == 252)
    || text_eq os (0 ∷ 0 ∷ 0 ∷ 0 ∷ 0 ∷ 0 ∷ 0 ∷ 0 ∷ 0 ∷ 0 ∷ 0 ∷ 0 ∷ 0 ∷ 0 ∷ 0 ∷ 0 ∷ [])
