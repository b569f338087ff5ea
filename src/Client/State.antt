-- ===== src/Client/State.antt =====
-- The construction of a client and the export of its state, in src/client.rs. The two HTTP clients
-- show only in whether they can be made.
use anml_client_rust.Common.{
  is_some, ℕ, Bool, Option, none, some, List, [], ◌∷◌, ◌++◌, ◌≡◌, refl, ap, ◌∙◌, append_assoc,
  append-nil, sym, Text,
}
use anml_client_rust.Common.Assoc.{get}
use anml_client_rust.Document.{AnmlDocument}
use anml_client_rust.Error.{HttpSource, http, Result, ok, err, ◌>>=◌}
use anml_client_rust.Config.{Origin, TrustDecision, deny_all, ConsentDecision, ConfirmDecision}
use anml_client_rust.Config.Builder.{ClientConfig, ClientConfigBuilder, build}
use anml_client_rust.Auth.{AuthProvider}
use anml_client_rust.Security.{Tokenizer}
use anml_client_rust.Flow.{Evaluator}
use anml_client_rust.Audit.{AuditEntry, append_entry}
use anml_client_rust.Client.Breaker.{CircuitBreaker, default_breaker}
use anml_client_rust.Client.Delay.{DelayFloats, RetryPolicy, default_policy}
use anml_client_rust.Client.Fetch.{HttpMiddleware, add_default_headers}
use anml_client_rust.Disclosure.Consent.{
  check, ConsentKey, ConsentGrant, ConsentStore, key_instance, export_grants, restore_grants,
}
use anml_client_rust.Disclosure.Matching.{ConsentScope}
use anml_client_rust.Disclosure.Consent.Checks.{check-get}
use anml_client_rust.Disclosure.Consent.Snapshot.{IsStore, restore_grants-export_grants}

-- The logs that the client knows: in memory, and the one that drops its entries. A log of the
-- caller's that is exported as empty is taken for the latter.
pub data AuditLog : Type 0 where
  in_memory : List AuditEntry → AuditLog
  no_op : AuditLog

abbrev pub record_entry : AuditEntry → AuditLog → AuditLog
record_entry e (in_memory log) = in_memory (append_entry e log)
record_entry e no_op = no_op

unfoldable pub record_all : List AuditEntry → AuditLog → AuditLog
record_all [] log = log
record_all (e ∷ entries) log = record_all entries (record_entry e log)

pub record ClientState : Type 0 where
  pub consent_grants : List ConsentGrant
  pub audit_entries : List AuditEntry

-- `ConsentHandler` and `ConfirmHandler`, by their one method.
abbrev pub ConsentHandler : Type 0
ConsentHandler = Text → Origin → Option Text → ConsentDecision

abbrev pub ConfirmHandler : Type 0
ConfirmHandler = Text → Text → Text → Option Text → ConfirmDecision

abbrev pub TrustPolicy : Type 0
TrustPolicy = Origin → AnmlDocument → TrustDecision

-- `ClientInner`, less its two HTTP clients.
pub record AnmlClient : Type 0 where
  pub config : ClientConfig
  pub consent_store : ConsentStore
  pub audit_log : AuditLog
  pub trust_policy : TrustPolicy
  pub auth_provider : Option AuthProvider
  pub middleware : List HttpMiddleware
  pub circuit_breaker : CircuitBreaker
  pub retry_policy : RetryPolicy
  pub tokenizer : Tokenizer
  pub condition_evaluator : Evaluator
  pub consent_handler : Option ConsentHandler
  pub confirm_handler : Option ConfirmHandler

pub record AnmlClientBuilder : Type 0 where
  pub config_builder : ClientConfigBuilder
  pub trust_policy : Option TrustPolicy
  pub auth_provider : Option AuthProvider
  pub consent_handler : Option ConsentHandler
  pub confirm_handler : Option ConfirmHandler
  pub condition_evaluator : Evaluator
  pub audit_log : Option AuditLog
  pub middleware : List HttpMiddleware
  pub retry_policy : Option RetryPolicy
  pub circuit_breaker_threshold : Option ℕ
  pub circuit_breaker_cooldown : Option ℕ
  pub restored_state : Option ClientState

-- What other crates decide when a client is built: whether a header is valid, whether the HTTP
-- client with these default headers and time limit and the one for media can be made, and the
-- random secret of the tokenizer.
pub record Setup : Type 0 where
  pub valid_header : Text → Text → Bool
  pub http_error : List (Text × Text) → ℕ → Option HttpSource
  pub media_error : ℕ → Option HttpSource
  pub secret : Text
  pub floats : DelayFloats

abbrev pub exported_entries : AuditLog → List AuditEntry
exported_entries (in_memory log) = log
exported_entries no_op = []

unfoldable pub export_state : AnmlClient → ClientState
export_state client = record {
  consent_grants = export_grants client.consent_store;
  audit_entries = exported_entries client.audit_log;
}

abbrev pub restore_state : ClientState → AnmlClientBuilder → AnmlClientBuilder
restore_state state b = record b { restored_state = some state }

abbrev pub some_or {ℓ} : {A : Type ℓ} → Option A → A → A
some_or none d = d
some_or (some a) d = a

abbrev pub breaker_of : AnmlClientBuilder → CircuitBreaker
breaker_of b = record default_breaker {
  failure_threshold = some_or b.circuit_breaker_threshold default_breaker.failure_threshold;
  cooldown = some_or b.circuit_breaker_cooldown default_breaker.cooldown;
}

-- Before the state is restored.
unfoldable pub new_client : Setup → AnmlClientBuilder → AnmlClient
new_client setup b = record {
  config = build b.config_builder;
  consent_store = [];
  audit_log = some_or b.audit_log no_op;
  trust_policy = some_or b.trust_policy (λ origin doc. deny_all origin);
  auth_provider = b.auth_provider;
  middleware = b.middleware;
  circuit_breaker = breaker_of b;
  retry_policy = some_or b.retry_policy (default_policy setup.floats);
  tokenizer = record { secret = setup.secret };
  condition_evaluator = b.condition_evaluator;
  consent_handler = b.consent_handler;
  confirm_handler = b.confirm_handler;
}

unfoldable pub restored : Option ClientState → AnmlClient → AnmlClient
unfolding record_all
restored none client = client
restored (some state) client = record client {
  consent_store = restore_grants state.consent_grants client.consent_store;
  audit_log = record_all state.audit_entries client.audit_log;
}

abbrev pub made : Option HttpSource → Result (Unit {0})
made none = ok tt
made (some source) = err (http source)

-- The HTTP clients of a configuration.
unfoldable pub http_clients : Setup → ClientConfig → Result (Unit {0})
http_clients setup config = do
  _ ← made (
      setup.http_error (add_default_headers setup.valid_header config.default_headers [])
        config.timeouts.per_request)
  made (setup.media_error config.timeouts.per_media_fetch)

unfoldable pub build_client : Setup → AnmlClientBuilder → Result AnmlClient
unfolding new_client restored http_clients
build_client setup b = do
  _ ← http_clients setup (build b.config_builder)
  ok (restored b.restored_state (new_client setup b))

record_all-in_memory :
    (entries log : List AuditEntry)
    → record_all entries (in_memory log) ≡ in_memory (log ++ entries)
unfolding record_all
record_all-in_memory [] log = ap in_memory (sym (append-nil log))
record_all-in_memory (e ∷ entries) log =
    record_all-in_memory entries (append_entry e log)
    ∙ ap in_memory (append_assoc log (e ∷ []) entries)

-- Where the HTTP clients can be made, a client is built from the exported state of another, each
-- grant of which lies under its own key, with an empty log in memory. Under every key it holds what the
-- other held, session grants included, so that a check of a consent finds a basis in it exactly when
-- one does in the other; and it exports the same audit entries.
pub build_client-export_state :
    (setup : Setup) (client : AnmlClient) (b : AnmlClientBuilder)
    → IsStore client.consent_store
    → b.audit_log ≡ some (in_memory [])
    → http_clients setup (build b.config_builder) ≡ ok tt
    → (client' : AnmlClient) × (build_client setup (restore_state (export_state client) b)
        ≡ ok client')
      × ((k : ConsentKey) → get k client'.consent_store ≡ get k client.consent_store)
      × ((f : Text) (o : Origin) (s : ConsentScope)
          → is_some (check f o s client'.consent_store)
            ≡ is_some (check f o s client.consent_store))
      × ((export_state client').audit_entries ≡ (export_state client).audit_entries)
unfolding build_client export_state new_client restored
build_client-export_state setup client b h e made_both = (
  restored (some (export_state client)) (new_client setup b),
  rw (build_client, made_both) refl,
  λ k. restore_grants-export_grants k client.consent_store [] h,
  λ f o s.
      check-get f o s _ client.consent_store
        (λ k. restore_grants-export_grants k client.consent_store [] h),
  rw e (ap exported_entries (record_all-in_memory (exported_entries client.audit_log) [])),
)
