-- ===== src/Integrity/Examples.antt =====
-- Witnesses for src/integrity.rs.
use anml_client_rust.Common.{
  ℕ, ◌≤◌, List, [], ◌∷◌, ◌≡◌, ◌⊎◌, ◌↔◌, refl, length, Text, codes, decimal, arith,
}
use anml_client_rust.Error.{malformed_document, integrity_mismatch, ok, err}
use anml_client_rust.Integrity.Verify.{
  SriAlgorithm, IntegrityToken, parse_integrity_attr, verify_integrity,
}
use anml_client_rust.Integrity.Verify.Strongest.{IsStrongest, verify_integrity_iff}
use anml_client_rust.Config.{ActionBudget, default_budget}
use anml_client_rust.Integrity.{new_media_tracker}
use anml_client_rust.Integrity.Bandwidth.{sum, run_fetches, run_fetches-bounded}

abbrev small_media : ActionBudget
small_media = record default_budget { max_media_fetches = 3; max_media_bandwidth = 100 }

run_fetches-bounded_example :
    (length (run_fetches (40 ∷ 50 ∷ 30 ∷ []) (new_media_tracker small_media)) ≤ 3)
    × (sum (run_fetches (40 ∷ 50 ∷ 30 ∷ []) (new_media_tracker small_media)) ≤ 100)
run_fetches-bounded_example =
    run_fetches-bounded small_media (40 ∷ 50 ∷ 30 ∷ []) (omega arith) (omega arith)

-- A stand-in for the digests.
abbrev length_digest : SriAlgorithm → List ℕ → Text
length_digest algorithm bytes = decimal (length bytes)

verify_integrity_iff_example :
    ((parse_integrity_attr (codes "sha256-9 sha384-5") ≡ [])
      × (verify_integrity length_digest (codes "hello") (codes "sha256-9 sha384-5") (codes "img")
          ≡ err malformed_document))
    ⊎ ((t : IntegrityToken) × IsStrongest t (parse_integrity_attr (codes "sha256-9 sha384-5"))
        × ((verify_integrity length_digest (codes "hello") (codes "sha256-9 sha384-5") (codes "img")
              ≡ ok tt)
            ↔ (length_digest t.algorithm (codes "hello") ≡ t.expected_digest)))
verify_integrity_iff_example =
    verify_integrity_iff length_digest (codes "hello") (codes "sha256-9 sha384-5") (codes "img")

-- The second of two digests of one strength is the one that counts.
verify_integrity_last :
    (verify_integrity length_digest (codes "hello") (codes "sha256-9 sha256-5") (codes "img")
      ≡ ok tt)
    × (verify_integrity length_digest (codes "hello") (codes "sha256-5 sha256-9") (codes "img")
        ≡ err (integrity_mismatch (codes "img") (codes "sha256-9") (codes "sha256-5")))
unfolding verify_integrity decimal
verify_integrity_last = (refl, refl)
