-- ===== src/Integrity/Verify/Strongest.antt =====
-- Which resources `verify_integrity` of src/integrity.rs lets pass.
use anml_client_rust.Common.{
  ℕ, ◌≤◌, ◌<◌, List, [], ◌∷◌, ◌++◌, ◌≡◌, refl, ap, inl, inr, ◌⊎◌, true, false, sym, subst, ◌↔◌,
  Text, text_eq_iff, arith, All, Bool-cases, leb,
}
use anml_client_rust.Error.{malformed_document, ok, err}
use anml_client_rust.Integrity.Verify.{
  SriAlgorithm, strength, IntegrityToken, strongest_from, select_strongest, parse_integrity_attr,
  verify_integrity,
}

-- The last of the strongest tokens: none before it is stronger, each behind it is weaker.
abbrev pub IsStrongest : IntegrityToken → List IntegrityToken → Type 0
IsStrongest t ts =
    (before : List IntegrityToken) × (after : List IntegrityToken) × (ts ≡ before ++ (t ∷ after))
    × All (λ u. strength u.algorithm ≤ strength t.algorithm) before
    × All (λ u. strength u.algorithm < strength t.algorithm) after

strongest_from_ge :
    (best : IntegrityToken) (ts : List IntegrityToken)
    → strength best.algorithm ≤ strength (strongest_from best ts).algorithm
unfolding strongest_from
strongest_from_ge best [] = omega arith
strongest_from_ge best (t ∷ ts) = ground (arith, strongest_from_ge best ts, strongest_from_ge t ts)

abbrev put_second : IntegrityToken → List IntegrityToken → List IntegrityToken
put_second t [] = []
put_second t (u ∷ us) = u ∷ t ∷ us

insert_weaker :
    (best t x : IntegrityToken) (ts : List IntegrityToken)
    → strength t.algorithm < strength best.algorithm
    → strength best.algorithm ≤ strength x.algorithm
    → IsStrongest x (best ∷ ts)
    → IsStrongest x (best ∷ t ∷ ts)
insert_weaker best t x ts h k ([], after, e, hb, ha) =
    ([], t ∷ after, ap (put_second t) e, tt, (omega (arith, h, k), ha))
insert_weaker best t x ts h k (u ∷ before, after, e, (hu, hb), ha) =
    (u ∷ t ∷ before, after, ap (put_second t) e, (hu, (omega (arith, h, k), hb)), ha)

strongest_from-IsStrongest :
    (best : IntegrityToken) (ts : List IntegrityToken)
    → IsStrongest (strongest_from best ts) (best ∷ ts)
unfolding strongest_from
strongest_from-IsStrongest best [] = ([], [], refl, tt, tt)
strongest_from-IsStrongest best (t ∷ ts) =
    elim (Bool-cases (leb (strength best.algorithm) (strength t.algorithm))) [
      | inl weaker ↦
          let (before, after, e, hb, ha) = strongest_from-IsStrongest t ts in
          rw (weaker, strongest_from)
            (
              best ∷ before,
              after,
              ap (◌∷◌ best) e,
              (omega (arith, strongest_from_ge t ts, by_leb weaker), hb),
              ha,
            )
      | inr stronger ↦
          rw (stronger, strongest_from)
            (insert_weaker best t (strongest_from best ts) ts (by_leb' stronger)
              (strongest_from_ge best ts) (strongest_from-IsStrongest best ts))
    ]
  where
    by_leb :
        leb (strength best.algorithm) (strength t.algorithm) ≡ true
        → strength best.algorithm ≤ strength t.algorithm
    by_leb h = ground (arith, h)

    by_leb' :
        leb (strength best.algorithm) (strength t.algorithm) ≡ false
        → strength t.algorithm < strength best.algorithm
    by_leb' h = ground (arith, h)

module _ (digest : SriAlgorithm → List ℕ → Text) where
  -- A resource is measured by one token alone, the last of the strongest that the attribute has: it
  -- passes exactly when its digest is the one of that token. An attribute without a token that is
  -- recognised lets nothing pass.
  pub verify_integrity_iff :
      (bytes : List ℕ) (integrity_attr element_name : Text)
      → ((parse_integrity_attr integrity_attr ≡ [])
          × (verify_integrity digest bytes integrity_attr element_name ≡ err malformed_document))
        ⊎ ((t : IntegrityToken) × IsStrongest t (parse_integrity_attr integrity_attr)
            × ((verify_integrity digest bytes integrity_attr element_name ≡ ok tt)
                ↔ (digest t.algorithm bytes ≡ t.expected_digest)))
  unfolding verify_integrity select_strongest
  verify_integrity_iff bytes integrity_attr element_name =
      by_tokens (parse_integrity_attr integrity_attr) refl
    where
      by_tokens :
          (ts : List IntegrityToken)
          → parse_integrity_attr integrity_attr ≡ ts
          → ((parse_integrity_attr integrity_attr ≡ [])
              × (verify_integrity digest bytes integrity_attr element_name
                  ≡ err malformed_document))
            ⊎ ((t : IntegrityToken) × IsStrongest t (parse_integrity_attr integrity_attr)
                × ((verify_integrity digest bytes integrity_attr element_name ≡ ok tt)
                    ↔ (digest t.algorithm bytes ≡ t.expected_digest)))
      by_tokens [] e = inl (e, rw (verify_integrity, e) refl)
      by_tokens (t ∷ ts) e =
          let best = strongest_from t ts in
          inr (
            best,
            subst (IsStrongest best) (sym e) (strongest_from-IsStrongest t ts),
            rw (verify_integrity, e)
                (ground (arith, text_eq_iff (digest best.algorithm bytes) best.expected_digest)),
          )
