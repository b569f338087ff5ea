-- ===== src/Lib.antt =====
-- A model of the ANML client, a library through which an agent talks to services that answer in ANML
-- documents, and the theorems about it. Paths are from the repository's root.
--
-- The parts and how they interact. A service's document carries rules for what the client may
-- disclose, and flows of steps whose actions the client executes. A disclosure passes the evaluation
-- engine, which takes the governing rule from the matcher, asks the rate limiter, the consent store,
-- the trust policy and the type of the question in turn, and tokenizes the value if the rule says so.
-- A flow is led by the navigator, which runs the current step's action through a callback, retries
-- it, and takes over the state that the answer carries. A fetch passes the circuit breaker of its
-- origin, the middleware and the checks behind the parser. An action passes the test for private
-- addresses, the checks of its parameters, the principal's confirmation and the budget of its
-- document before a request is sent. A response to a service is built from the evaluation of
-- each field. Pages follow the links of fetched documents, and a resource is measured
-- against its digest.
--
-- Common: notation and the lemmas on lists, bytes, numbers and association lists.
-- Error: src/error.rs, the errors that the modelled operations return; their prose is left out, and
--   Error.Display takes it as an argument for the messages.
-- Document: the records of the crate `anml` with the fields that the client reads.
-- Config: src/config.rs. Limits has `clamp`, Trust the allow list. Durations are nanoseconds.
-- Security: src/security/tokenizer.rs, with the keyed hash as a parameter.
-- Disclosure.Matching: src/disclosure/matching.rs. Glob, Prefix, Patterns, FieldPrefix and Resolve
--   prove what the selectors accept and which rule wins.
-- Disclosure.Consent: src/disclosure/consent.rs, the store as an association list; History compares
--   it with the past operations.
-- Disclosure.RateLimit: src/disclosure/rate_limit.rs, over nanoseconds of a monotone clock.
-- Disclosure.Values, Disclosure.Extract, Disclosure.Evaluate: src/disclosure/mod.rs. `evaluate` is
--   split at its steps, and returns the two stores that the context refers to. `Url::parse` and the
--   keyed hash are parameters. Values.Types describes the values that answer a question.
-- Flow: src/flow/mod.rs; Flow.Advance has `advance` and `handle_step_error`, Flow.Update the
--   statuses that a response carries, Flow.Display the texts for logs, Flow.Start where a navigator
--   begins. `&mut self` is passed and returned. The executor, the evaluator and the time that passes
--   are the record `World`.
-- Config.Builder: `ClientConfig` and its builder.
-- Auth: src/auth.rs and the trait that it implements.
-- Client: src/client.rs. Breaker has the circuit breaker; Checks what follows the parser; Fetch one
--   attempt, `execute_fetch`, over the record `Web` of what other crates do; Retries `fetch_url` and
--   `fetch`; Delay the `RetryPolicy`, with `f64` as the record `DelayFloats`; State the construction
--   of a client and the export of its state; Setters the setters of its builder; Middleware
--   src/middleware.rs; Summary the line that stands for a document in logs. Accepted, Settled and
--   Waiting prove which answers are accepted, how the attempts end and how long they wait.
-- Action.Budget, Action.Address: the budget and `is_private_ip` of src/action/mod.rs.
-- Action.Params, Action.Validation: src/action/params.rs and src/action/validation.rs, with the
--   floats of the standard library as the record `Floats`. Json has the JSON encoding; Forms, Strings,
--   Objects and Members read the encodings back, Base32 compares with RFC 4648; Validation.Shown,
--   Prepare.Shown and Execute.Readable show that the JSON bodies of executed actions are readable.
-- Action.Send, Action.Prepare, Action.Execute: `execute_http_request`, the checks that stand before a
--   request, and `execute_action` with its steps, of src/action/mod.rs. The state that the context
--   refers to is passed and returned, with the requests that were sent; the time limit of the action
--   is an argument that says after how many requests it strikes. Action.Builder:
--   src/action/builder.rs and src/action/idempotency.rs; Action.Builder.Agrees compares its execution
--   with `execute_action`.
-- Knowledge: src/knowledge/response.rs over the builder of the crate `anml`, a record.
-- Discovery: src/discovery; Links has the parser of `Link` headers, and Links.Alternate says which
--   links count; Records has the DNS records, of which Records.Pairs and Records.Service tell the
--   services that are found.
-- Pagination, Rights, Audit: src/pagination.rs, src/rights.rs and src/audit.rs.
-- Testing: the mock server and the assertions of src/testing. A listener is left out.
-- Cache: src/cache.rs. Lookups has what a lookup finds, Capacity the invariant, Fresh where the
--   documents of a lookup come from.
-- Integrity: the media budget of src/integrity.rs; Integrity.Verify the check of a resource.
-- The modules named Examples hold the witnesses: each theorem at a concrete input.
--
-- Bounds and fuel. The recursion of `advance_to_next_step` in src/flow/mod.rs has no bound of its own,
-- so the model runs it on fuel and ends in `unfinished` without it; Flow.Returns shows which fuel is
-- enough for a flow in document order, and Flow.Cycle that no fuel is enough on some documents. The
-- attempts of `fetch_url` are counted by the range of the loop, which is all of its fuel. The
-- retries run on fuel of one more than the step's retry budget. Counters of 32 bits keep their
-- wrap-around where they can reach it; `usize` is 64 bits wide.
--
-- Not modelled: the fixtures of src/testing, which are constant texts, the tests and the examples.
-- Left out: tracing, the locks of stores whose operations hold them from start to end, the HTTP
-- clients that `build` makes, of which only the errors show, and the crates that the client calls.
pub mod Common
pub mod Error
pub mod Document
pub mod Config
pub mod Security
pub mod Testing
pub mod Disclosure
pub mod Discovery
pub mod Flow
pub mod Client
pub mod Action
pub mod Auth
pub mod Cache
pub mod Integrity
pub mod Knowledge
pub mod Pagination
pub mod Rights
pub mod Audit
