-- ===== src/Audit.antt =====
-- src/audit.rs: the audit log in memory, oldest entry first.
use anml_client_rust.Common.{
  ℕ, ◌+◌, ◌*◌, ◌/◌, ◌≤◌, ◌<◌, ◌≡◌, Bool, Option, List, [], ◌∷◌, ◌++◌, ◌==◌, length, retain, text_eq,
  Text, arith,
}
use anml_client_rust.Config.{Origin, origin_eq}
use anml_client_rust.Disclosure.Consent.{ConsentBasis}

pub record AuditEntry : Type 0 where
  pub field : Text
  pub origin : Origin
  -- nanoseconds since the epoch
  pub timestamp : ℕ
  pub consent_basis : ConsentBasis
  pub disclosure_rule : Text
  pub action_id : Option Text

abbrev pub append_entry : AuditEntry → List AuditEntry → List AuditEntry
append_entry e log = log ++ (e ∷ [])

abbrev pub filter_by_origin : Origin → List AuditEntry → List AuditEntry
filter_by_origin o log = retain (λ e. origin_eq e.origin o) log

abbrev pub filter_by_field : Text → List AuditEntry → List AuditEntry
filter_by_field f log = retain (λ e. text_eq e.field f) log

-- `InMemoryAuditLog::new`, `list`, `len` and `is_empty`
abbrev pub new_log : List AuditEntry
new_log = []

abbrev pub list_entries : List AuditEntry → List AuditEntry
list_entries log = log

abbrev pub log_length : List AuditEntry → ℕ
log_length log = length log

abbrev pub log_is_empty : List AuditEntry → Bool
log_is_empty log = log_length log == 0

-- The timestamp in a snapshot: whole seconds since the epoch, of nanoseconds.
unfoldable pub serialize_system_time : ℕ → ℕ
serialize_system_time time = time / 1_000_000_000

unfoldable pub deserialize_system_time : ℕ → ℕ
deserialize_system_time secs = secs * 1_000_000_000

-- A timestamp that is read back from a snapshot lies less than a second before the original, and
-- is written again as the same number.
pub deserialize_system_time-serialize_system_time :
    (time : ℕ)
    → (deserialize_system_time (serialize_system_time time) ≤ time)
      × (time < deserialize_system_time (serialize_system_time time) + 1_000_000_000)
      × (serialize_system_time (deserialize_system_time (serialize_system_time time))
          ≡ serialize_system_time time)
unfolding serialize_system_time deserialize_system_time
deserialize_system_time-serialize_system_time time = (omega arith, omega arith, omega arith)
