-- ===== src/Auth.antt =====
-- src/auth.rs: the two providers of credentials that never change, and the trait of src/config.rs
-- that they implement. The answers of a provider may change from call to call.
use anml_client_rust.Common.{ℕ, Option, some, List, [], ◌∷◌, ◌++◌, Text, codes}
use anml_client_rust.Config.{Origin, AuthRefreshResult, failed}

pub record AuthProvider : Type 0 where
  -- by the number of the call
  pub credentials : ℕ → Origin → Option (List (Text × Text))
  pub on_unauthorized : Origin → AuthRefreshResult

abbrev pub bearer_token_provider : Text → AuthProvider
bearer_token_provider token = record {
  credentials = λ n origin. some ((codes "Authorization", codes "Bearer " ++ token) ∷ []);
  on_unauthorized = λ origin. failed;
}

pub data ApiKeyLocation : Type 0 where
  header query : Text → ApiKeyLocation

abbrev pub api_key_header : ApiKeyLocation → Text → Text × Text
api_key_header (header name) key = (name, key)
api_key_header (query name) key = (codes "X-ANML-ApiKey-Query", name ++ codes "=" ++ key)

abbrev pub api_key_provider : Text → ApiKeyLocation → AuthProvider
api_key_provider key location = record {
  credentials = λ n origin. some (api_key_header location key ∷ []);
  on_unauthorized = λ origin. failed;
}
