-- ===== src/Probing/GuardPin.antt =====
-- worker/probing/utils/ssrf-pin.ts: a rejection of the guard, in the failure taxonomy.
pub mod Laws
mod Tests
use probeboard_api.Common.{none, some, Text, codes}
use probeboard_api.Ssrf.{
  SsrfRejectionCode, scheme_not_allowed, credentials_in_url, port_not_allowed, url_unresolvable,
  address_not_allowed, Cause, no_cause, resolved_to, reason, SsrfError,
}
use probeboard_api.Probing.FailureClasses.{
  dns_nxdomain, blocked_by_policy, unknown_error, Classification, classify_resolver_code,
}

abbrev pub code_text : SsrfRejectionCode → Text
code_text scheme_not_allowed = codes "SCHEME_NOT_ALLOWED"
code_text credentials_in_url = codes "CREDENTIALS_IN_URL"
code_text port_not_allowed = codes "PORT_NOT_ALLOWED"
code_text url_unresolvable = codes "URL_UNRESOLVABLE"
code_text address_not_allowed = codes "ADDRESS_NOT_ALLOWED"

pub data CauseKind : Type 0 where
  absent unreadable : CauseKind
  code : Text → CauseKind

-- A blocked address is attached as a string, which is no object.
abbrev pub cause_of : Cause → CauseKind
cause_of no_cause = absent
cause_of (resolved_to a) = unreadable
cause_of (reason none) = unreadable
cause_of (reason (some c)) = code c

unresolvable : CauseKind → Classification
unresolvable absent = record {
  failure_class = dns_nxdomain;
  code = some (code_text url_unresolvable);
}
unresolvable unreadable = record {
  failure_class = unknown_error;
  code = some (code_text url_unresolvable);
}
unresolvable (code c) = record { failure_class = classify_resolver_code c; code = some c }

abbrev policy : SsrfRejectionCode → Classification
policy c = record { failure_class = blocked_by_policy; code = some (code_text c) }

by_code : SsrfRejectionCode → CauseKind → Classification
unfolding unresolvable
by_code scheme_not_allowed cause = policy scheme_not_allowed
by_code credentials_in_url cause = policy credentials_in_url
by_code port_not_allowed cause = policy port_not_allowed
by_code address_not_allowed cause = policy address_not_allowed
by_code url_unresolvable cause = unresolvable cause

unfoldable pub classify_guard_rejection : SsrfError → Classification
unfolding by_code
classify_guard_rejection error = by_code error.code (cause_of error.cause)
