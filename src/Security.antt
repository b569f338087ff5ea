-- ===== src/Security.antt =====
-- src/security/tokenizer.rs: tokens for disclosed values. The keyed hash (the crates `hmac` and
-- `sha2`) with its hex encoding (the crate `hex`) is a parameter: it takes the secret and the bytes
-- that the calls of `update` feed in turn.
use anml_client_rust.Common.{◌++◌, ◌≡◌, ap, append_assoc, Text, codes}
use anml_client_rust.Config.{Origin, origin_text}

pub record Tokenizer : Type 0 where
  pub secret : Text

abbrev pub bar : Text
bar = codes "|"

-- The bytes fed to the hash.
unfoldable pub mac_input : Text → Text → Origin → Text
mac_input field principal_id o = field ++ (bar ++ (principal_id ++ (bar ++ origin_text o)))

module _ (hmac_hex : Text → Text → Text) where
  unfoldable pub tokenize : Tokenizer → Text → Text → Origin → Text
  tokenize t field principal_id o = hmac_hex t.secret (mac_input field principal_id o)

  -- Whatever the hash, a field that ends in `|b` and the principal `c` give the token of the field
  -- without that ending and the principal `b|c`: the token is not bound to the pair.
  pub tokenize-shifted :
      (t : Tokenizer) (a b c : Text) (o : Origin)
      → tokenize t (a ++ (bar ++ b)) c o ≡ tokenize t a (b ++ (bar ++ c)) o
  unfolding tokenize mac_input
  tokenize-shifted t a b c o = ap (hmac_hex t.secret) (simp append_assoc)
