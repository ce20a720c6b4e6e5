-- ===== src/Storage/OutcomeMapping.antt =====
-- worker/storage/utils/outcome-mapping.ts: the row that a probe's outcome is stored as.
-- Durations are whole, so `Math.round` is the identity on them.
pub mod Labels
use probeboard_api.Common.{
  ℕ, zero, suc, min, max, refl, sym, ap, inl, inr, Bool, true, false, not, and-eq-true_iff, Option,
  none, some, List, [], map, append_assoc, append-nil, arith, ltb, leb, if◌then◌else◌, ltb→lt,
  lt→ltb, leb→le, ==_iff, tests, Bool-cases, Option-cases, length, get_elem?, get_or, take,
  replicate, length-append, length-take, all, any, find, All, All-append, ℤ, pos, negsuc, sub_ℕ,
  Text, codes, text_eq, text_eq_iff, starts_with, includes, has, lower_unit, upper_unit,
  to_lower_case, to_upper_case,
}
use probeboard_api.Probing.FailureClasses.{
  FailureClass, dns_nxdomain, dns_failure, connection_refused, connection_timeout, connection_reset,
  tls_expired, tls_untrusted, tls_hostname_mismatch, tls_handshake_failed, response_timeout,
  body_timeout, status_mismatch, assertion_failed, too_many_redirects, blocked_by_policy,
  unknown_error,
}
use probeboard_api.Probing.Probe.{Verdict, ProbeOutcome}

pub data ProbeOutcomeLabel : Type 0 where
  up down unknown : ProbeOutcomeLabel

abbrev pub class_label : Option FailureClass → ProbeOutcomeLabel
class_label none = unknown
class_label (some c) = elim c [ blocked_by_policy ↦ unknown | unknown_error ↦ unknown | _ ↦ down ]

unfoldable pub outcome_label : Verdict → ProbeOutcomeLabel
outcome_label v = if v.success then up else class_label v.failure_class

unfoldable pub class_text : FailureClass → Text
class_text dns_nxdomain = codes "DNS_NXDOMAIN"
class_text dns_failure = codes "DNS_FAILURE"
class_text connection_refused = codes "CONNECTION_REFUSED"
class_text connection_timeout = codes "CONNECTION_TIMEOUT"
class_text connection_reset = codes "CONNECTION_RESET"
class_text tls_expired = codes "TLS_EXPIRED"
class_text tls_untrusted = codes "TLS_UNTRUSTED"
class_text tls_hostname_mismatch = codes "TLS_HOSTNAME_MISMATCH"
class_text tls_handshake_failed = codes "TLS_HANDSHAKE_FAILED"
class_text response_timeout = codes "RESPONSE_TIMEOUT"
class_text body_timeout = codes "BODY_TIMEOUT"
class_text status_mismatch = codes "STATUS_MISMATCH"
class_text assertion_failed = codes "ASSERTION_FAILED"
class_text too_many_redirects = codes "TOO_MANY_REDIRECTS"
class_text blocked_by_policy = codes "BLOCKED_BY_POLICY"
class_text unknown_error = codes "UNKNOWN_ERROR"

abbrev pub class_column : Option FailureClass → Option Text
class_column none = none
class_column (some c) = some (to_lower_case (class_text c))

pub record ResultContext : Type 0 where
  pub endpoint_id : Text
  pub slot : ℕ
  pub interval_s : ℕ
  pub worker_id : Text
  pub attempt_id : Text

pub record NewProbeResult : Type 0 where
  pub endpoint_id : Text
  pub started_at : ℕ
  pub scheduled_at : ℕ
  pub interval_s : ℕ
  pub outcome : ProbeOutcomeLabel
  pub failure_class : Option Text
  pub failure_code : Option Text
  pub status_code : Option ℕ
  pub total_ms : ℤ
  pub dns_ms : Option ℤ
  pub connect_ms : Option ℤ
  pub tls_ms : Option ℤ
  pub ttfb_ms : Option ℤ
  pub transfer_ms : Option ℤ
  pub redirects : ℕ
  pub truncated : Bool
  pub cert_expires_at : Option ℕ
  pub worker_id : Text
  pub attempt_id : Text

unfoldable pub to_result_row : ProbeOutcome → ResultContext → NewProbeResult
to_result_row o ctx = record {
  endpoint_id = ctx.endpoint_id;
  started_at = o.started_at;
  scheduled_at = ctx.slot;
  interval_s = ctx.interval_s;
  outcome = outcome_label o.verdict;
  failure_class = class_column o.verdict.failure_class;
  failure_code = o.verdict.code;
  status_code = o.verdict.status;
  total_ms = o.timings.total_ms;
  dns_ms = o.timings.dns_ms;
  connect_ms = o.timings.connect_ms;
  tls_ms = o.timings.tls_ms;
  ttfb_ms = o.timings.ttfb_ms;
  transfer_ms = o.timings.transfer_ms;
  redirects = o.redirects;
  truncated = o.verdict.truncated;
  cert_expires_at = o.cert_expires_at;
  worker_id = ctx.worker_id;
  attempt_id = ctx.attempt_id;
}
