-- ===== src/Integrity/Verify.antt =====
-- The check of a resource in src/integrity.rs against the `integrity` attribute, and the fetch of a
-- resource. The digests (the crates `sha2` and `base64`) are an argument.
pub mod Strongest
use anml_client_rust.Common.{
  ℕ, ◌+◌, ◌<◌, Bool, true, false, ◌&&◌, ◌||◌, Option, none, some, List, [], ◌∷◌, ◌++◌, leb,
  if◌then◌else◌, Text, text_eq, codes, map, length, ascii_lower, is_space, is_empty, is_some,
  split_once,
}
use anml_client_rust.Error.{
  malformed_document, integrity_mismatch, http, timeout, Result, ok, err, ◌>>=◌,
}
use anml_client_rust.Client.Fetch.{as_secs, Exchange, answered, broken, late}
use anml_client_rust.Integrity.{MediaBudgetTracker, record_fetch}

pub data SriAlgorithm : Type 0 where
  sha256 sha384 sha512 : SriAlgorithm

-- The order of the variants.
abbrev pub strength : SriAlgorithm → ℕ
strength sha256 = 0
strength sha384 = 1
strength sha512 = 2

unfoldable pub from_prefix : Text → Option SriAlgorithm
from_prefix s =
    if text_eq s (codes "sha256")
    then some sha256
    else if text_eq s (codes "sha384")
    then some sha384
    else if text_eq s (codes "sha512")
    then some sha512
    else none

pub record IntegrityToken : Type 0 where
  pub algorithm : SriAlgorithm
  pub expected_digest : Text

-- The word at the front, and the words behind it.
abbrev pub words_from : Text → Text × List Text
words_from [] = ([], [])
words_from (c ∷ s) =
    let (word, words) = words_from s in
    if is_space c then ([], if is_empty word then words else word ∷ words) else (c ∷ word, words)

abbrev pub split_whitespace : Text → List Text
split_whitespace s =
    let (word, words) = words_from s in if is_empty word then words else word ∷ words

unfoldable pub parse_token : Text → Option IntegrityToken
unfolding from_prefix
parse_token token = elim (split_once b'-' token) [
  | none ↦ none
  | some (prefix, digest) ↦ elim (from_prefix prefix) [
    | none ↦ none
    | some algo ↦ some (record { algorithm = algo; expected_digest = digest })
  ]
]

unfoldable pub parse_tokens : List Text → List IntegrityToken
unfolding parse_token
parse_tokens [] = []
parse_tokens (w ∷ ws) = elim (parse_token w) [
  | none ↦ parse_tokens ws
  | some t ↦ t ∷ parse_tokens ws
]

unfoldable pub parse_integrity_attr : Text → List IntegrityToken
unfolding parse_tokens
parse_integrity_attr attr = parse_tokens (split_whitespace attr)

-- `max_by_key`, which keeps the last of the greatest.
unfoldable pub strongest_from : IntegrityToken → List IntegrityToken → IntegrityToken
strongest_from best [] = best
strongest_from best (t ∷ ts) =
    if leb (strength best.algorithm) (strength t.algorithm)
    then strongest_from t ts
    else strongest_from best ts

unfoldable pub select_strongest : List IntegrityToken → Option IntegrityToken
unfolding strongest_from
select_strongest [] = none
select_strongest (t ∷ ts) = some (strongest_from t ts)

-- The name of a variant in lower case.
abbrev pub algorithm_name : SriAlgorithm → Text
algorithm_name sha256 = codes "sha256"
algorithm_name sha384 = codes "sha384"
algorithm_name sha512 = codes "sha512"

abbrev pub digest_text : SriAlgorithm → Text → Text
digest_text algorithm digest = algorithm_name algorithm ++ codes "-" ++ map ascii_lower digest

module _ (digest : SriAlgorithm → List ℕ → Text) where
  unfoldable pub verify_integrity : List ℕ → Text → Text → Result (Unit {0})
  unfolding parse_integrity_attr select_strongest
  verify_integrity bytes integrity_attr element_name =
      elim (select_strongest (parse_integrity_attr integrity_attr)) [
        | none ↦ err malformed_document
        | some t ↦
            if text_eq (digest t.algorithm bytes) t.expected_digest
            then ok tt
            else err (
                integrity_mismatch element_name (digest_text t.algorithm t.expected_digest)
                  (digest_text t.algorithm (digest t.algorithm bytes)))
      ]

  abbrev pub body_within : ℕ → Exchange → Result (List ℕ)
  body_within limit (answered r) = r.body
  body_within limit (broken source) = err (http source)
  body_within limit late = err (timeout (codes "per_media_fetch") (as_secs limit))

  -- A body that arrives too late is one that fails.
  unfoldable pub fetch_verified_resource :
      ℕ → Exchange → Text → Text → MediaBudgetTracker → MediaBudgetTracker × Result (List ℕ)
  unfolding verify_integrity
  fetch_verified_resource limit exchange integrity_attr element_name budget =
      elim (body_within limit exchange) [
        | err e ↦ (budget, err e)
        | ok data_ ↦
            let (budget', recorded) = record_fetch (length data_) budget in
            (
              budget',
              recorded >>= λ u.
                  verify_integrity data_ integrity_attr element_name >>= λ v. ok data_,
            )
      ]

pub data InferenceType : Type 0 where
  required other : InferenceType

unfoldable pub enforce_inference_integrity : Option InferenceType → Option Text → Result (Unit {0})
enforce_inference_integrity inference integrity = elim inference [
  | some required ↦ if is_some integrity then ok tt else err malformed_document
  | _ ↦ ok tt
]
