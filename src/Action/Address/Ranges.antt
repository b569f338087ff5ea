-- ===== src/Action/Address/Ranges.antt =====
-- The address ranges that src/action/mod.rs refuses, as ranges of the 32-bit value of an address.
use anml_client_rust.Common.{
  ℕ, ◌+◌, ◌*◌, ◌^◌, ◌≤◌, ◌<◌, ◌≡◌, refl, ◌↔◌, ◌⊎◌, true, false, arith, [], ◌∷◌,
}
use anml_client_rust.Action.Address.{v4, v6, is_private_ip}

-- The 32-bit value of an address with these octets.
abbrev pub value_of : ℕ → ℕ → ℕ → ℕ → ℕ
value_of a b c d = ((a * 256 + b) * 256 + c) * 256 + d

-- The addresses of the block that starts at the address and has so many of them.
abbrev pub In : ℕ → ℕ → ℕ → Type 0
In first size n = (first ≤ n) × (n < first + size)

-- An IPv4 address is private exactly if its 32-bit value is in one of the four blocks
-- 127.0.0.0/8, 10.0.0.0/8, 172.16.0.0/12 and 192.168.0.0/16, or is 0.
pub is_private_ip_iff :
    (a b c d : ℕ)
    → a < 256
    → b < 256
    → c < 256
    → d < 256
    → (is_private_ip (v4 a b c d) ≡ true) ↔ (
        In (value_of 127 0 0 0) (2 ^ 24) (value_of a b c d)
        ⊎ (In (value_of 10 0 0 0) (2 ^ 24) (value_of a b c d)
            ⊎ (In (value_of 172 16 0 0) (2 ^ 20) (value_of a b c d)
                ⊎ (In (value_of 192 168 0 0) (2 ^ 16) (value_of a b c d)
                    ⊎ (value_of a b c d ≡ 0)))))
unfolding is_private_ip
is_private_ip_iff a b c d ha hb hc hd = ground arith

-- An IPv4 address in its IPv6 form `::ffff:a.b.c.d` is never private, whatever the IPv4 address is.
pub is_private_ip-mapped :
    (a b c d : ℕ)
    → is_private_ip (v6 (0 ∷ 0 ∷ 0 ∷ 0 ∷ 0 ∷ 0 ∷ 0 ∷ 0 ∷ 0 ∷ 0 ∷ 255 ∷ 255 ∷ a ∷ b ∷ c ∷ d ∷ []))
      ≡ false
unfolding is_private_ip
is_private_ip-mapped a b c d = refl
