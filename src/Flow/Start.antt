-- ===== src/Flow/Start.antt =====
-- Where `resolve_current_index` of src/flow/mod.rs puts a new navigator.
use anml_client_rust.Common.{
  ℕ, zero, suc, ◌+◌, Bool, true, Option, none, some, List, [], ◌∷◌, ◌≡◌, refl, inl, inr, subst, ◌⊎◌,
  ◌↔◌, text_eq_iff, arith, position, position_from, Option-cases, Bool-cases, All,
}
use anml_client_rust.Document.{StepStatus, current, pending, completed, skipped, AnmlContext}
use anml_client_rust.Flow.{
  StepInfo, has_id, status_eq, unwrap_or, first_pending, resolve_current_index,
}

-- The index of the first step with the property.
abbrev pub FirstAt : (StepInfo → Type 0) → List StepInfo → ℕ → Type 0
FirstAt P [] i = ⊥
FirstAt P (s ∷ steps) zero = P s
FirstAt P (s ∷ steps) (suc i) = (¬ P s) × FirstAt P steps i

-- It, or what is said where no step has the property.
abbrev pub FirstElse : (StepInfo → Type 0) → List StepInfo → Type 0 → ℕ → Type 0
FirstElse P steps Else i = FirstAt P steps i ⊎ (All (λ s. ¬ P s) steps × Else)

-- The first pending step, or the first of all.
abbrev pub FromPending : List StepInfo → ℕ → Type 0
FromPending steps i = FirstElse (λ s. s.status ≡ pending) steps (i ≡ 0) i

-- The first step that the context names, or one of the former.
abbrev pub FromContext : List StepInfo → Option AnmlContext → ℕ → Type 0
FromContext steps none i = FromPending steps i
FromContext steps (some c) i = FirstElse (λ s. s.id ≡ c.step) steps (FromPending steps i) i

-- The first current step, or one of the former.
abbrev pub StartsAt : List StepInfo → Option AnmlContext → ℕ → Type 0
StartsAt steps context i = FirstElse (λ s. s.status ≡ current) steps (FromContext steps context i) i

status_eq_iff : (s t : StepStatus) → (status_eq s t ≡ true) ↔ (s ≡ t)
status_eq_iff pending t = grind arith
status_eq_iff current t = grind arith
status_eq_iff completed t = grind arith
status_eq_iff skipped t = grind arith

module _ (p : StepInfo → Bool) (P : StepInfo → Type 0)
    (decides : (s : StepInfo) → (p s ≡ true) ↔ P s) where
  position_from-FirstAt :
      (n : ℕ) (steps : List StepInfo) (j : ℕ)
      → position_from n p steps ≡ some j
      → (i : ℕ) × (j ≡ n + i) × FirstAt P steps i
  position_from-FirstAt n [] j h = ground arith
  position_from-FirstAt n (s ∷ steps) j h = elim (Bool-cases (p s)) [
    | inl here ↦ (0, ground (arith, (rw here at h)), (decides s).0 here)
    | inr behind ↦
        let (i, e, f) = position_from-FirstAt (suc n) steps j (rw behind at h) in
        (suc i, omega (arith, e), ((λ q. ground (arith, behind, (decides s).1 q)), f))
  ]

  position_from-none :
      (n : ℕ) (steps : List StepInfo) → position_from n p steps ≡ none → All (λ s. ¬ P s) steps
  position_from-none n [] h = tt
  position_from-none n (s ∷ steps) h = elim (Bool-cases (p s)) [
    | inl here ↦ ground (arith, (rw here at h))
    | inr behind ↦ (
      λ q. ground (arith, behind, (decides s).1 q),
      position_from-none (suc n) steps (rw behind at h),
    )
  ]

  position-FirstElse :
      (steps : List StepInfo) (d : ℕ) (Else : ℕ → Type 0)
      → Else d
      → FirstElse P steps (Else (unwrap_or (position p steps) d)) (unwrap_or (position p steps) d)
  position-FirstElse steps d Else h = elim (Option-cases (position p steps)) [
    | inl missing ↦ rw missing (inr (position_from-none 0 steps missing, h))
    | inr (j, found) ↦
        let (i, e, f) = position_from-FirstAt 0 steps j found in
        let same : i ≡ j = omega (arith, e) in rw found (inl (subst (FirstAt P steps) same f))
  ]

first_pending-FromPending : (steps : List StepInfo) → FromPending steps (first_pending steps)
first_pending-FromPending steps =
    position-FirstElse _ _ (λ s. status_eq_iff s.status pending) steps 0 (λ i. i ≡ 0) refl

-- What `resolve_current_index` yields where no step is current.
abbrev not_current : List StepInfo → Option AnmlContext → ℕ
not_current steps none = first_pending steps
not_current steps (some c) = unwrap_or (position (has_id c.step) steps) (first_pending steps)

resolve_current_index_lem :
    (steps : List StepInfo) (context : Option AnmlContext)
    → unwrap_or (position (λ s. status_eq s.status current) steps) (not_current steps context)
      ≡ resolve_current_index steps context
unfolding resolve_current_index
resolve_current_index_lem steps context = ground arith

FromContext-resolved :
    (steps : List StepInfo) (context : Option AnmlContext)
    → FromContext steps context (not_current steps context)
FromContext-resolved steps none = first_pending-FromPending steps
FromContext-resolved steps (some c) =
    position-FirstElse _ _ (λ s. text_eq_iff s.id c.step) steps (first_pending steps)
      (FromPending steps) (first_pending-FromPending steps)

pub resolve_current_index-StartsAt :
    (steps : List StepInfo) (context : Option AnmlContext)
    → StartsAt steps context (resolve_current_index steps context)
resolve_current_index-StartsAt steps context =
    subst (StartsAt steps context) (resolve_current_index_lem steps context) (
      position-FirstElse _ (λ s. s.status ≡ current) (λ s. status_eq_iff s.status current) steps
        (not_current steps context) (FromContext steps context)
        (FromContext-resolved steps context))
