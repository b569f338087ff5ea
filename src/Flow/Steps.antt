-- ===== src/Flow/Steps.antt =====
-- The list of steps of src/flow/mod.rs under a change of one status: what is read at an index, found
-- by an id, and the next step stay the same.
use anml_client_rust.Common.{
  ℕ, zero, suc, Option, none, some, List, [], ◌∷◌, ◌≡◌, refl, Text, arith, get_elem?, length,
  position_from, position, ap, ltb, if◌then◌else◌,
}
use anml_client_rust.Document.{StepStatus}
use anml_client_rust.Flow.{StepInfo, set_status, next_index, has_id}

pub get_elem?-set_status :
    (i j : ℕ) (st : StepStatus) (steps : List StepInfo) (s : StepInfo)
    → get_elem? steps j ≡ some s
    → (t : StepStatus) × (get_elem? (set_status i st steps) j ≡ some (record s { status = t }))
get_elem?-set_status i j st [] s h = ground arith
get_elem?-set_status zero zero st (x ∷ steps) s h = (st, ground arith)
get_elem?-set_status zero (suc j) st (x ∷ steps) s h = (s.status, h)
get_elem?-set_status (suc i) zero st (x ∷ steps) s h = (s.status, h)
get_elem?-set_status (suc i) (suc j) st (x ∷ steps) s h = get_elem?-set_status i j st steps s h

pub length-set_status :
    (i : ℕ) (st : StepStatus) (steps : List StepInfo)
    → length (set_status i st steps) ≡ length steps
length-set_status i st [] = refl
length-set_status zero st (x ∷ steps) = refl
length-set_status (suc i) st (x ∷ steps) = ap suc (length-set_status i st steps)

pub position_from-set_status :
    (n i : ℕ) (st : StepStatus) (a : Text) (steps : List StepInfo)
    → position_from n (has_id a) (set_status i st steps) ≡ position_from n (has_id a) steps
position_from-set_status n i st a [] = refl
position_from-set_status n zero st a (x ∷ steps) = refl
position_from-set_status n (suc i) st a (x ∷ steps) =
    ground (arith, position_from-set_status (suc n) i st a steps)

pub next_index-set_status :
    (k i : ℕ) (st : StepStatus) (steps : List StepInfo) (s : StepInfo) (t : StepStatus)
    → next_index (set_status k st steps) i (record s { status = t }) ≡ next_index steps i s
unfolding next_index
next_index-set_status k i st steps s t = by_next s.next
  where
    by_next :
        (n : Option Text)
        → elim n [
          | some next_id ↦ position (has_id next_id) (set_status k st steps)
          | none ↦ if ltb (suc i) (length (set_status k st steps)) then some (suc i) else none
        ]
          ≡ elim n [
            | some next_id ↦ position (has_id next_id) steps
            | none ↦ if ltb (suc i) (length steps) then some (suc i) else none
          ]
    by_next none = rw (length-set_status k st steps)
    by_next (some a) = position_from-set_status 0 k st a steps
