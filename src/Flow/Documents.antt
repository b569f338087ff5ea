-- ===== src/Flow/Documents.antt =====
-- How a navigator of src/flow/mod.rs starts: from a document, and from a snapshot.
use anml_client_rust.Common.{
  is_empty, if◌then◌else◌, subst, sym, ℕ, zero, suc, ◌+◌, ◌<◌, Bool, true, false, Option, none,
  some, List, [], ◌∷◌, ◌≡◌, refl, inl, inr, ◌⊎◌, Text, arith, get_elem?, length, position,
  position_from_lt, Option-cases, replicate, map, All,
}
use anml_client_rust.Document.{current, AnmlStep, AnmlContext, AnmlDocument}
use anml_client_rust.Error.{AnmlClientError, malformed_document, ok, err}
use anml_client_rust.Flow.{
  StepInfo, FlowNavigator, panics, unwrap_or, has_id, status_eq, from_anml_step, evaluate_condition,
  resolve_current_index, record_history, from_document_with_timeout, timed_out,
}
use anml_client_rust.Flow.Start.{StartsAt, resolve_current_index-StartsAt}
use anml_client_rust.Flow.Update.{flow_steps}
use anml_client_rust.Flow.Advance.{World, advance, handle_step_error, to_snapshot, from_snapshot}
use anml_client_rust.Flow.Invariant.{Budgets, IsValid, length_of_Budgets}
use anml_client_rust.Flow.Safety.{record_history-IsValid}

-- The choice of the position of the first step that a test accepts keeps to the steps.
position_or_lt :
    (p : StepInfo → Bool) (steps : List StepInfo) (d : ℕ)
    → d < length steps
    → unwrap_or (position p steps) d < length steps
position_or_lt p steps d h = elim (Option-cases (position p steps)) [
  | inl out ↦ rw out h
  | inr (i, e) ↦ rw e (omega (arith, position_from_lt 0 p steps i e))
]

pub resolve_current_index_lt :
    (steps : List StepInfo) (context : Option AnmlContext)
    → 0 < length steps
    → resolve_current_index steps context < length steps
unfolding resolve_current_index
resolve_current_index_lt steps context h =
    elim (Option-cases (position (λ s. status_eq s.status current) steps)) [
      | inr (i, e) ↦
          rw (e, resolve_current_index)
            (omega (arith, position_from_lt 0 (λ s. status_eq s.status current) steps i e))
      | inl out ↦ elim (Option-cases context) [
        | inl unknown ↦ rw (out, unknown, resolve_current_index) (position_or_lt _ steps 0 h)
        | inr (c, known) ↦
            rw (out, known, resolve_current_index)
              (position_or_lt (has_id c.step) steps _ (position_or_lt _ steps 0 h))
      ]
    ]

Budgets-start :
    (news : List AnmlStep)
    → Budgets (map from_anml_step news) (replicate (length (map from_anml_step news)) 0)
unfolding from_anml_step
Budgets-start [] = tt
Budgets-start (new ∷ news) = (omega arith, Budgets-start news)

zeros : (n : ℕ) → All (λ (a : ℕ). a ≡ 0) (replicate n 0)
zeros zero = tt
zeros (suc n) = (refl, zeros n)

record_history-keeps :
    (now : ℕ) (nav : FlowNavigator)
    → ((record_history now nav).steps ≡ nav.steps)
      × ((record_history now nav).current_index ≡ nav.current_index)
      × ((record_history now nav).retry_states ≡ nav.retry_states)
unfolding record_history
record_history-keeps now nav = elim (Option-cases (get_elem? nav.steps nav.current_index)) [
  | inl out ↦ rw (out, record_history) (refl, refl, refl)
  | inr (s, at) ↦ rw (at, record_history) (refl, refl, refl)
]

-- The navigator before the first entry of its history.
abbrev start : ℕ → ℕ → AnmlDocument → Option AnmlContext → List AnmlStep → FlowNavigator
start now flow_timeout doc context news = record {
  steps = map from_anml_step news;
  current_index = resolve_current_index (map from_anml_step news) context;
  history = [];
  document = doc;
  retry_states = replicate (length (map from_anml_step news)) 0;
  created_at = now;
  flow_timeout = flow_timeout;
}

start-IsValid :
    (now flow_timeout : ℕ) (doc : AnmlDocument) (context : Option AnmlContext) (new : AnmlStep)
    (news : List AnmlStep)
    → IsValid (start now flow_timeout doc context (new ∷ news))
start-IsValid now flow_timeout doc context new news =
    let b = Budgets-start (new ∷ news) in
    record {
      in_range = omega (
        arith,
        length_of_Budgets (map from_anml_step (new ∷ news))
            (replicate (length (map from_anml_step (new ∷ news))) 0) b,
        resolve_current_index_lt (map from_anml_step (new ∷ news)) context (omega arith),
      );
      budgets = b;
    }

-- The context that a document's state gives.
abbrev pub flow_context : AnmlDocument → Option AnmlContext
flow_context doc = elim doc.state [ none ↦ none | some s ↦ s.context ]

-- A document with no steps is refused as malformed. A document with steps gives a valid navigator
-- over exactly these steps, with no retry used. It stands at the first step that is current; where
-- none is, at the first with the id that the context names, if there is a context with such a step;
-- else at the first pending step; and where none is pending, at the first step.
pub from_document-IsValid :
    (now flow_timeout : ℕ) (doc : AnmlDocument)
    → ((flow_steps doc ≡ [])
        × (from_document_with_timeout now doc flow_timeout ≡ err malformed_document))
      ⊎ ((nav : FlowNavigator) × (from_document_with_timeout now doc flow_timeout ≡ ok nav)
          × IsValid nav
          × (nav.steps ≡ map from_anml_step (flow_steps doc))
          × StartsAt (map from_anml_step (flow_steps doc)) (flow_context doc) nav.current_index
          × All (λ (a : ℕ). a ≡ 0) nav.retry_states)
unfolding from_document_with_timeout
from_document-IsValid now flow_timeout doc = elim (Option-cases doc.state) [
  | inl no_state ↦ inl (rw no_state refl, rw (no_state, from_document_with_timeout) refl)
  | inr (state, has_state) ↦ elim (Option-cases state.flow) [
    | inl no_flow ↦
        inl (rw (has_state, no_flow) refl, rw (has_state, no_flow, from_document_with_timeout) refl)
    | inr (flow, has_flow) ↦
        rw (has_state, has_flow, from_document_with_timeout) (started _ state.context flow.steps)
  ]
]
  where
    started :
        (d : AnmlDocument) (context : Option AnmlContext) (news : List AnmlStep)
        → ((news ≡ [])
            × ((if is_empty news
                  then err malformed_document
                  else ok (record_history now (start now flow_timeout d context news)))
                ≡ err malformed_document))
          ⊎ ((nav : FlowNavigator) × ((if is_empty news
                  then err malformed_document
                  else ok (record_history now (start now flow_timeout d context news)))
                ≡ ok nav)
              × IsValid nav
              × (nav.steps ≡ map from_anml_step news)
              × StartsAt (map from_anml_step news) context nav.current_index
              × All (λ (a : ℕ). a ≡ 0) nav.retry_states)
    started d context [] = inl (refl, refl)
    started d context (new ∷ news) =
        let nav = start now flow_timeout d context (new ∷ news) in
        let (same_steps, same_index, same_states) = record_history-keeps now nav in
        inr (
          record_history now nav,
          refl,
          record_history-IsValid now nav (start-IsValid now flow_timeout d context new news),
          same_steps,
          subst (StartsAt nav.steps context) (sym same_index)
              (resolve_current_index-StartsAt nav.steps context),
          subst (All (λ (a : ℕ). a ≡ 0)) (sym same_states) (zeros (length nav.steps)),
        )

-- A navigator restored from a snapshot has no counts of attempts. So `advance` panics in it where the
-- time is not over, the current step is available and has an action, and the callback fails.
pub from_snapshot-panics :
    (w : World) (now created : ℕ) (nav : FlowNavigator) (doc : AnmlDocument) (s : StepInfo)
    (a : Text) (e : AnmlClientError)
    → timed_out now (from_snapshot created (to_snapshot nav) doc) ≡ false
    → get_elem? nav.steps nav.current_index ≡ some s
    → evaluate_condition s w.evaluator ≡ true
    → s.action ≡ some a
    → w.execute 0 doc a ≡ err e
    → (advance w now (from_snapshot created (to_snapshot nav) doc)).1 ≡ panics
unfolding advance from_snapshot to_snapshot handle_step_error
from_snapshot-panics w now created nav doc s a e early at open_step has_action failed =
    rw (early, at, open_step, has_action, failed, advance) (no_counts)
  where
    no_counts :
        (handle_step_error w
          (suc s.retry_budget)
          1
          (now + w.took 0)
          nav.current_index
          (from_snapshot created (to_snapshot nav) doc)).1
        ≡ panics
    no_counts = rw (at, handle_step_error) refl
