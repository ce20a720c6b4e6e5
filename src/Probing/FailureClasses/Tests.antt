-- ===== src/Probing/FailureClasses/Tests.antt =====
-- A cyclic chain of causes, and a nested code.
use probeboard_api.Common.{false, zero, suc, ◌≡◌, refl, ◌↔◌, ◌⊎◌, true, none, some, Text, codes}
use probeboard_api.Probing.FailureClasses.{
  connection_refused, dns_failure, unknown_error, absent, text, object, Heap, walk, transport_code,
  classify_error, classify_code, signal_to_class, max_cause_depth,
}
use probeboard_api.Probing.FailureClasses.Causes.{first_code, transport_code-eq-first_code}
use probeboard_api.Probing.FailureClasses.{
  Boundaries, is_missing, classify_abort, response_timeout, body_timeout,
}
use probeboard_api.Probing.FailureClasses.Aborts.{Reached, IsConnected, classify_abort_rules}
use probeboard_api.Probing.FailureClasses.Laws.{
  IsUnmapped, is_transport_class, classify_error_rules,
}

-- 0 is caused by 1, which has a code; 2 and 3 cause each other.
abbrev heap : Heap
heap zero = record { code = absent; name = absent; proto_name = absent; cause = some (object 1) }
heap (suc zero) = record {
  code = text (codes "ECONNREFUSED");
  name = absent;
  proto_name = absent;
  cause = none;
}
heap (suc (suc zero)) = record {
  code = absent;
  name = absent;
  proto_name = absent;
  cause = some (object 3);
}
heap (suc (suc (suc p))) = record {
  code = absent;
  name = absent;
  proto_name = absent;
  cause = some (object 2);
}

nested :
    classify_error heap (object 0)
    ≡ record { failure_class = connection_refused; code = some (codes "ECONNREFUSED") }
unfolding classify_error transport_code walk classify_code signal_to_class
nested = refl

cycle : classify_error heap (object 2) ≡ record { failure_class = unknown_error; code = none }
unfolding classify_error transport_code walk
cycle = refl

transport_code-eq-first_code_example :
    transport_code heap (object 2) ≡ first_code heap max_cause_depth (some (object 2))
transport_code-eq-first_code_example = transport_code-eq-first_code heap (object 2)

classify_error_rules_example :
    let c = classify_error heap (object 0) in
    (c.code ≡ transport_code heap (object 0))
    × ((c.failure_class ≡ unknown_error)
        ↔ ((code : Text) → transport_code heap (object 0) ≡ some code → IsUnmapped code))
    × ((c.failure_class ≡ unknown_error) ⊎ (is_transport_class c.failure_class ≡ true))
classify_error_rules_example = classify_error_rules heap (object 0)

abbrev stalled : Boundaries
stalled = record {
  dns_start = some 1;
  dns_done = some 2;
  connect_start = some 2;
  connect_done = some 3;
  tls_start = none;
  tls_done = none;
  first_byte = some 5;
  transfer_done = none;
}

stalls : classify_abort stalled false ≡ body_timeout
unfolding classify_abort
stalls = refl

classify_abort_rules_example :
    let c = classify_abort stalled false in
    ((c ≡ dns_failure) ↔ (is_missing stalled.dns_done ≡ true))
    × ((c ≡ response_timeout)
        ↔ (IsConnected stalled false × (is_missing stalled.first_byte ≡ true)))
    × ((c ≡ body_timeout) ↔ (
        IsConnected stalled false
        × Reached stalled.first_byte
        × (is_missing stalled.transfer_done ≡ true)))
    × ((c ≡ unknown_error)
        ↔ (IsConnected stalled false × Reached stalled.first_byte × Reached stalled.transfer_done))
classify_abort_rules_example = classify_abort_rules stalled false
