-- ===== src/Action/Params/Base32.antt =====
-- The base32 encoding of src/action/params.rs against the one of RFC 4648.
use Prim.Native.Nat.{◌%◌}
use anml_client_rust.Common.{
  ℕ, ◌+◌, ◌*◌, ◌/◌, List, [], ◌∷◌, ◌++◌, ◌≡◌, refl, length, Text, map, arith,
}
use anml_client_rust.Action.Params.Forms.{Bytes}
use anml_client_rust.Action.Params.{base32_digit, drain, base32_loop, base32_encode_no_pad}

-- The bits of the bytes, the highest of each byte first.
abbrev pub bits : Text → List ℕ
bits [] = []
bits (x ∷ xs) =
    x / 128 % 2
    ∷ x / 64 % 2
    ∷ x / 32 % 2
    ∷ x / 16 % 2
    ∷ x / 8 % 2
    ∷ x / 4 % 2
    ∷ x / 2 % 2
    ∷ x % 2
    ∷ bits xs

abbrev quintet : ℕ → ℕ → ℕ → ℕ → ℕ → ℕ
quintet a b c d e = 16 * a + 8 * b + 4 * c + 2 * d + e

-- The numbers of five bits each, the last one filled up with zeros.
abbrev pub quintets : List ℕ → List ℕ
quintets (a ∷ b ∷ c ∷ d ∷ e ∷ rest) = quintet a b c d e ∷ quintets rest
quintets [] = []
quintets (a ∷ []) = quintet a 0 0 0 0 ∷ []
quintets (a ∷ b ∷ []) = quintet a b 0 0 0 ∷ []
quintets (a ∷ b ∷ c ∷ []) = quintet a b c 0 0 ∷ []
quintets (a ∷ b ∷ c ∷ d ∷ []) = quintet a b c d 0 ∷ []

-- The lowest bits of the buffer are the bits that wait.
abbrev Waiting : List ℕ → ℕ → Type 0
Waiting [] buffer = Unit
Waiting (a ∷ []) buffer = buffer % 2 ≡ a
Waiting (a ∷ b ∷ []) buffer = buffer % 4 ≡ 2 * a + b
Waiting (a ∷ b ∷ c ∷ []) buffer = buffer % 8 ≡ 4 * a + 2 * b + c
Waiting (a ∷ b ∷ c ∷ d ∷ []) buffer = buffer % 16 ≡ 8 * a + 4 * b + 2 * c + d
Waiting (a ∷ b ∷ c ∷ d ∷ e ∷ rest) buffer = ⊥

digit_path : {m n : ℕ} {s t : Text} → m ≡ n → s ≡ t → base32_digit m ∷ s ≡ base32_digit n ∷ t
digit_path p q = λ i. base32_digit (p i) ∷ q i

base32_loop-quintets :
    (xs : Text) (waiting : List ℕ) (buffer : ℕ)
    → Bytes xs
    → Waiting waiting buffer
    → base32_loop xs buffer (length waiting) ≡ map base32_digit (quintets (waiting ++ bits xs))
unfolding base32_loop drain
base32_loop-quintets [] [] buffer small w = refl
base32_loop-quintets [] (a ∷ []) buffer small w = digit_path (omega arith) refl
base32_loop-quintets [] (a ∷ b ∷ []) buffer small w = digit_path (omega arith) refl
base32_loop-quintets [] (a ∷ b ∷ c ∷ []) buffer small w = digit_path (omega arith) refl
base32_loop-quintets [] (a ∷ b ∷ c ∷ d ∷ []) buffer small w = digit_path (omega arith) refl
base32_loop-quintets [] (a ∷ b ∷ c ∷ d ∷ e ∷ rest) buffer small w = absurd w
base32_loop-quintets (x ∷ xs) [] buffer (small, more) w =
    digit_path (omega arith)
      (base32_loop-quintets xs (x / 4 % 2 ∷ x / 2 % 2 ∷ x % 2 ∷ []) _ more (omega arith))
base32_loop-quintets (x ∷ xs) (a ∷ []) buffer (small, more) w =
    digit_path (omega arith) (
      base32_loop-quintets xs (x / 8 % 2 ∷ x / 4 % 2 ∷ x / 2 % 2 ∷ x % 2 ∷ []) _ more (omega arith))
base32_loop-quintets (x ∷ xs) (a ∷ b ∷ []) buffer (small, more) w =
    digit_path (omega arith) (digit_path (omega arith) (base32_loop-quintets xs [] _ more tt))
base32_loop-quintets (x ∷ xs) (a ∷ b ∷ c ∷ []) buffer (small, more) w =
    digit_path (omega arith)
      (digit_path (omega arith) (base32_loop-quintets xs (x % 2 ∷ []) _ more (omega arith)))
base32_loop-quintets (x ∷ xs) (a ∷ b ∷ c ∷ d ∷ []) buffer (small, more) w =
    digit_path (omega arith) (
      digit_path (omega arith)
        (base32_loop-quintets xs (x / 2 % 2 ∷ x % 2 ∷ []) _ more (omega arith)))
base32_loop-quintets (x ∷ xs) (a ∷ b ∷ c ∷ d ∷ e ∷ rest) buffer small w = absurd w

-- The encoding of bytes has one digit for each five bits of them, from the highest bit of the first
-- byte on, and the last one is filled up with zero bits.
pub base32_encode_no_pad-quintets :
    (bytes : Text)
    → Bytes bytes
    → base32_encode_no_pad bytes ≡ map base32_digit (quintets (bits bytes))
unfolding base32_encode_no_pad
base32_encode_no_pad-quintets bytes small = base32_loop-quintets bytes [] 0 small tt
