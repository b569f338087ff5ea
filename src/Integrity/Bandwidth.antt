-- ===== src/Integrity/Bandwidth.antt =====
-- What the media budget of src/integrity.rs bounds.
use anml_client_rust.Common.{
  ℕ, ◌+◌, ◌-◌, ◌%◌, ◌^◌, ◌≤◌, ◌<◌, Bool, true, false, List, [], ◌∷◌, ◌≡◌, inl, inr, ltb,
  if◌then◌else◌, length, arith, Bool-cases,
}
use anml_client_rust.Config.{ActionBudget}
use anml_client_rust.Error.{Result, ok, err}
use anml_client_rust.Integrity.{MediaBudgetTracker, new_media_tracker, record_bytes, record_fetch}

abbrev pub sum : List ℕ → ℕ
sum [] = 0
sum (n ∷ ns) = n + sum ns

abbrev pub lets_through : Result (Unit {0}) → Bool
lets_through (ok u) = true
lets_through (err e) = false

-- The sizes of the fetches that are let through, in turn.
pub run_fetches : List ℕ → MediaBudgetTracker → List ℕ
run_fetches [] t = []
run_fetches (size ∷ sizes) t =
    let accepted = run_fetches sizes (record_fetch size t).0 in
    if lets_through (record_fetch size t).1 then size ∷ accepted else accepted

run_fetches-bounded_from :
    (sizes : List ℕ) (t : MediaBudgetTracker)
    → t.fetch_count + length sizes < 2 ^ 32
    → t.bandwidth_bytes + sum sizes < 2 ^ 64
    → (length (run_fetches sizes t) ≤ t.max_fetches - t.fetch_count)
      × (sum (run_fetches sizes t) ≤ t.max_bandwidth - t.bandwidth_bytes)
unfolding run_fetches record_fetch record_bytes
run_fetches-bounded_from [] t h k = (omega arith, omega arith)
run_fetches-bounded_from (size ∷ sizes) t h k =
    let count : (t.fetch_count + 1) % 2 ^ 32 ≡ t.fetch_count + 1 = omega arith in
    let total : (t.bandwidth_bytes + size) % 2 ^ 64 ≡ t.bandwidth_bytes + size = omega arith in
    let after_count : MediaBudgetTracker = record t { fetch_count = t.fetch_count + 1 } in
    let after_bytes : MediaBudgetTracker = record after_count {
      bandwidth_bytes = t.bandwidth_bytes + size;
    } in
    elim (Bool-cases (ltb t.max_fetches (t.fetch_count + 1))) [
      | inl many ↦
          let (a, b) =
            run_fetches-bounded_from sizes after_count (omega (arith, h)) (omega (arith, k)) in
          rw (run_fetches, record_fetch, count, many) (omega (arith, a), omega (arith, b))
      | inr few ↦
          let (a, b) =
            run_fetches-bounded_from sizes after_bytes (omega (arith, h)) (omega (arith, k)) in
          elim (Bool-cases (ltb t.max_bandwidth (t.bandwidth_bytes + size))) [
            | inl large ↦
                rw (run_fetches, record_fetch, count, few, record_bytes, total, large)
                  (omega (arith, a), omega (arith, b))
            | inr small ↦
                let room : t.fetch_count + 1 ≤ t.max_fetches = ground arith in
                let fits : t.bandwidth_bytes + size ≤ t.max_bandwidth = ground arith in
                rw (run_fetches, record_fetch, count, few, record_bytes, total, small)
                  (omega (arith, a, room), omega (arith, b, fits))
          ]
    ]

-- Of fewer than 2 ^ 32 fetches with fewer than 2 ^ 64 bytes in all, on a new tracker, at most
-- `max_media_fetches` are let through, and these have at most `max_media_bandwidth` bytes in all.
pub run_fetches-bounded :
    (budget : ActionBudget) (sizes : List ℕ)
    → length sizes < 2 ^ 32
    → sum sizes < 2 ^ 64
    → (length (run_fetches sizes (new_media_tracker budget)) ≤ budget.max_media_fetches)
      × (sum (run_fetches sizes (new_media_tracker budget)) ≤ budget.max_media_bandwidth)
run_fetches-bounded budget sizes h k =
    let (a, b) =
      run_fetches-bounded_from sizes (new_media_tracker budget) (omega (arith, h))
        (omega (arith, k)) in
    (omega (arith, a), omega (arith, b))

-- A fetch that would exceed the bandwidth is refused and its bytes are counted all the same: every
-- later fetch is refused as well, an empty one included, while the counters do not wrap around.
pub record_fetch_exhausts :
    (t : MediaBudgetTracker) (large later : ℕ)
    → t.fetch_count + 2 < 2 ^ 32
    → t.bandwidth_bytes + (large + later) < 2 ^ 64
    → t.max_bandwidth < t.bandwidth_bytes + large
    → t.fetch_count + 1 ≤ t.max_fetches
    → (lets_through (record_fetch large t).1 ≡ false)
      × (lets_through (record_fetch later (record_fetch large t).0).1 ≡ false)
unfolding record_fetch record_bytes
record_fetch_exhausts t large later few_fetches few_bytes over left = (ground arith, ground arith)
