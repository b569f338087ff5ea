-- ===== src/Action/Budget/Bounds.antt =====
-- What the budget of src/action/mod.rs guarantees when its calls follow one another.
use anml_client_rust.Common.{
  ◌⊎◌, inl, inr, suc, ◌+◌, ◌%◌, ◌^◌, ◌≤◌, ◌<◌, Bool, true, false, ◌&&◌, ◌||◌, List, [], ◌∷◌, ◌≡◌,
  refl, leb, ltb, length, if◌then◌else◌, Text, text_eq_refl, arith, All, subst, ◌∙◌, Bool-cases,
}
use anml_client_rust.Config.{ActionBudget}
use anml_client_rust.Error.{Result, ok, err}
use anml_client_rust.Action.Budget.{
  ActionBudgetTracker, new_tracker, contains, admit, finish, check_and_record,
}

abbrev pub accepts : Result (Unit {0}) → Bool
accepts (ok u) = true
accepts (err e) = false

-- The origins of the requests that were let through, and the tracker after all of them.
abbrev pub run_requests : List Text → ActionBudgetTracker → List Text × ActionBudgetTracker
run_requests [] t = ([], t)
run_requests (o ∷ os) t =
    let (accepted, t') = run_requests os (check_and_record o t).0 in
    (if accepts (check_and_record o t).1 then o ∷ accepted else accepted, t')

-- `check_and_record` lets a request through exactly if the counter is below `max_requests`, and its
-- origin is known or the origins are fewer than `max_distinct_origins`. A request that it refuses
-- leaves the tracker as it was.
pub check_and_record-accepts :
    (origin : Text) (t : ActionBudgetTracker)
    → (accepts (check_and_record origin t).1 ≡ (
        ltb t.request_count t.budget.max_requests
        && (contains origin t.origins
            || ltb (length t.origins % 2 ^ 32) t.budget.max_distinct_origins)))
      × ((accepts (check_and_record origin t).1 ≡ true) ⊎ ((check_and_record origin t).0 ≡ t))
unfolding check_and_record admit finish
check_and_record-accepts origin t = elim (Bool-cases (leb t.budget.max_requests t.request_count)) [
  | inl full ↦ rw (full, check_and_record) (ground arith, inr refl)
  | inr left ↦ elim (Bool-cases (contains origin t.origins)) [
    | inl known ↦ rw (left, known, check_and_record) (ground arith, inl refl)
    | inr new ↦ elim (Bool-cases (leb t.budget.max_distinct_origins (length t.origins % 2 ^ 32))) [
      | inl many ↦ rw (left, new, many, check_and_record) (ground arith, inr refl)
      | inr few ↦ rw (left, new, few, check_and_record) (ground arith, inl refl)
    ]
  ]
]

pub record Fits (t : ActionBudgetTracker) : Type 0 where
  pub few_requests : t.request_count ≤ t.budget.max_requests
  pub few_origins : length t.origins ≤ t.budget.max_distinct_origins
  pub requests_bound : t.budget.max_requests < 2 ^ 32
  pub origins_bound : t.budget.max_distinct_origins < 2 ^ 32

-- What one request does to a tracker: the origins grow, and a request let through is counted and
-- its origin known.
record Stepped (origin : Text) (t t' : ActionBudgetTracker) (through : Bool) : Type 0 where
  fits : Fits t'
  same_budget : t'.budget ≡ t.budget
  grows : (o : Text) → contains o t.origins ≡ true → contains o t'.origins ≡ true
  counted : t'.request_count ≡ t.request_count + (if through then 1 else 0)
  known : through ≡ true → contains origin t'.origins ≡ true

check_and_record-Stepped :
    (origin : Text) (t : ActionBudgetTracker)
    → Fits t
    → Stepped origin t (check_and_record origin t).0 (accepts (check_and_record origin t).1)
unfolding check_and_record admit finish
check_and_record-Stepped origin t h =
    elim (Bool-cases (leb t.budget.max_requests t.request_count)) [
      | inl full ↦
          rw (full, check_and_record)
            (record {
              fits = h;
              same_budget = refl;
              grows = λ o e. e;
              counted = omega arith;
              known = λ e. ground arith;
            })
      | inr left ↦
          let one : (t.request_count + 1) % 2 ^ 32 ≡ t.request_count + 1 =
            ground (arith, h.requests_bound) in
          let below : suc t.request_count ≤ t.budget.max_requests = ground arith in
          elim (Bool-cases (contains origin t.origins)) [
            | inl found ↦
                rw (left, found, check_and_record)
                  (record {
                    fits = record {
                      few_requests = omega (arith, one, below);
                      few_origins = h.few_origins;
                      requests_bound = h.requests_bound;
                      origins_bound = h.origins_bound;
                    };
                    same_budget = refl;
                    grows = λ o e. e;
                    counted = one;
                    known = λ e. found;
                  })
            | inr new ↦
                elim (Bool-cases (leb t.budget.max_distinct_origins (length t.origins % 2 ^ 32))) [
                  | inl many ↦
                      rw (left, new, many, check_and_record)
                        (record {
                          fits = h;
                          same_budget = refl;
                          grows = λ o e. e;
                          counted = omega arith;
                          known = λ e. ground arith;
                        })
                  | inr few ↦
                      rw (left, new, few, check_and_record)
                        (record {
                          fits = record {
                            few_requests = omega (arith, one, below);
                            few_origins = ground (arith, h.few_origins, h.origins_bound);
                            requests_bound = h.requests_bound;
                            origins_bound = h.origins_bound;
                          };
                          same_budget = refl;
                          grows = λ o e. ground arith;
                          counted = one;
                          known = λ e. ground (arith, text_eq_refl origin);
                        })
                ]
          ]
    ]

record Ran (t t' : ActionBudgetTracker) (accepted : List Text) : Type 0 where
  fits : Fits t'
  same_budget : t'.budget ≡ t.budget
  grows : (o : Text) → contains o t.origins ≡ true → contains o t'.origins ≡ true
  counted : t'.request_count ≡ t.request_count + length accepted
  known : All (λ o. contains o t'.origins ≡ true) accepted

run_requests-Ran :
    (os : List Text) (t : ActionBudgetTracker)
    → Fits t
    → Ran t (run_requests os t).1 (run_requests os t).0
run_requests-Ran [] t h = record {
  fits = h;
  same_budget = refl;
  grows = λ o e. e;
  counted = omega arith;
  known = tt;
}
run_requests-Ran (o ∷ os) t h =
    let s = check_and_record-Stepped o t h in
    let r = run_requests-Ran os (check_and_record o t).0 s.fits in
    elim (Bool-cases (accepts (check_and_record o t).1)) [
      | inl through ↦ rw through (record {
        fits = r.fits;
        same_budget = r.same_budget ∙ s.same_budget;
        grows = λ p e. r.grows p (s.grows p e);
        counted = omega (arith, r.counted, (rw through at s.counted));
        known = (r.grows o (s.known through), r.known);
      })
      | inr refused ↦ rw refused (record {
        fits = r.fits;
        same_budget = r.same_budget ∙ s.same_budget;
        grows = λ p e. r.grows p (s.grows p e);
        counted = omega (arith, r.counted, (rw refused at s.counted));
        known = r.known;
      })
    ]

-- Of any sequence of requests on a new tracker, at most `max_requests` are let through, each of them
-- is counted, and they go to at most `max_distinct_origins` origins.
pub run_requests-bounded :
    (budget : ActionBudget) (os : List Text)
    → budget.max_requests < 2 ^ 32
    → budget.max_distinct_origins < 2 ^ 32
    → ((run_requests os (new_tracker budget)).1.request_count
        ≡ length (run_requests os (new_tracker budget)).0)
      × (length (run_requests os (new_tracker budget)).0 ≤ budget.max_requests)
      × ((origins : List Text) × (length origins ≤ budget.max_distinct_origins)
          × All (λ o. contains o origins ≡ true) (run_requests os (new_tracker budget)).0)
run_requests-bounded budget os requests_bound origins_bound =
    let t = new_tracker budget in
    let r = run_requests-Ran os t (record {
      few_requests = omega arith;
      few_origins = omega arith;
      requests_bound = requests_bound;
      origins_bound = origins_bound;
    }) in
    (
      omega (arith, r.counted),
      subst (λ b. length (run_requests os t).0 ≤ b.max_requests) r.same_budget
          (omega (arith, r.counted, r.fits.few_requests)),
      (
        (run_requests os t).1.origins,
        subst (λ b. length (run_requests os t).1.origins ≤ b.max_distinct_origins) r.same_budget
            r.fits.few_origins,
        r.known,
      ),
    )
