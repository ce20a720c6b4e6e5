-- ===== src/Probing/Probe.antt =====
-- worker/probing/utils/probe.ts: one probe of one endpoint.
-- What the platform answers is a parameter: the clock's readings, the resolver of each hop, the
-- deadline's abort while the guard is awaited, and what a request comes to. Hops are counted by
-- the redirects before them. A dispatcher is counted when it is made and when it is destroyed.
pub mod Hop
pub mod Loop
pub mod Invariant
pub mod Laws
pub mod Hops
pub mod Outcome
pub mod Sample
mod Tests
use probeboard_api.Common.{
  ℕ, zero, suc, min, max, refl, sym, ap, inl, inr, Bool, true, false, not, ◌&&◌, and-eq-true_iff,
  Option, none, some, List, [], ◌∷◌, map, append_assoc, append-nil, arith, ltb, leb, ltb→lt, lt→ltb,
  leb→le, ==_iff, tests, Bool-cases, Option-cases, length, get_elem?, get_or, take, replicate,
  length-append, length-take, all, any, find, All, All-append, ℤ, pos, negsuc, sub_ℕ, Text, codes,
  text_eq, text_eq_iff, starts_with, includes, has, lower_unit, upper_unit, to_lower_case,
  to_upper_case,
}
use probeboard_api.Web.{Url, UrlParser, https}
use probeboard_api.Ssrf.BlockList.{Address}
use probeboard_api.Ssrf.{
  Network, SsrfGuardConfig, SsrfError, ValidatedUrl, Validation, valid, invalid,
  assert_saveable_url,
}
use probeboard_api.Assertions.Json.{Json}
use probeboard_api.Assertions.Evaluate.{
  EndpointAssertion, ResponseBody, AssertionResult, passed, refused, evaluate_assertions,
}
use probeboard_api.Probing.Redirects.{
  Headers, get, head, is_followed_redirect, method_for_redirect, HopHeaders, headers_for_hop,
}
use probeboard_api.Probing.BodyCap.{
  Bytes, Stream, CappedBody, ReadResult, complete, thrown, read_capped_body,
}
use probeboard_api.Probing.FailureClasses.{
  FailureClass, status_mismatch, assertion_failed, too_many_redirects, unknown_error,
  Classification, Thrown, Heap, classify_error, Boundaries, classify_abort, is_abort_error,
  is_missing,
}
use probeboard_api.Probing.GuardPin.{classify_guard_rejection}
use probeboard_api.Probing.Timing.{
  HopBoundary, dns_start, dns_done, first_byte, TerminalBoundary, transferred, blocked_at,
  failed_at, DerivedPhases, Timing, create_timing, mark, mark_same, reset_hop, has_ended,
  mark_terminal, derived,
}

pub record StatusRange : Type 0 where
  pub min : ℕ
  pub max : ℕ

pub record EndpointProbeConfig : Type 0 where
  pub monitor_id : Text
  pub url : Text
  pub method : Text
  pub headers : Headers
  pub body : Option Text
  pub expected_status : List StatusRange
  pub assertions : List EndpointAssertion
  pub timeout_ms : ℕ
  pub follow_redirects : Bool
  pub max_redirects : ℕ

pub record ProbeDeps : Type 0 where
  pub ssrf : SsrfGuardConfig
  pub max_timeout_ms : ℕ
  pub max_body_bytes : ℕ
  pub max_redirects_cap : ℕ

pub record Verdict : Type 0 where
  pub success : Bool
  pub status : Option ℕ
  pub failure_class : Option FailureClass
  pub code : Option Text
  pub truncated : Bool

pub record ProbeOutcome : Type 0 where
  pub monitor_id : Text
  pub started_at : ℕ
  pub verdict : Verdict
  pub timings : DerivedPhases
  pub cert_expires_at : Option ℕ
  pub redirects : ℕ

-- A request, with its pinned address and the connector's timeout.
pub record Sent : Type 0 where
  pub url : Url
  pub method : Text
  pub headers : Headers
  pub body : Option Text
  pub pin : Option Address
  pub timeout_ms : ℕ

pub record Response : Type 0 where
  pub status : ℕ
  pub location : Option Text
  pub body : Option (Stream Thrown)
  -- What the cancel of the body's reader rejects with, if it does.
  pub cancel_error : Option Thrown

-- What a request comes to: the boundaries reported, the expiry of each TLS verdict, and the end.
pub data Exchange : Type 0 where
  broke : List HopBoundary → List (Option ℕ) → Thrown → Exchange
  answered : List HopBoundary → List (Option ℕ) → Response → Exchange

pub record Platform : Type 0 where
  pub heap : Heap
  pub urls : UrlParser
  pub network : ℕ → Network
  -- The abort while the guard of a hop is awaited, with the boundaries marked by then.
  pub interrupts : ℕ → Option (List HopBoundary × Thrown)
  pub transport : ℕ → Sent → Exchange
  pub clock : ℕ → ℕ
  pub wall_clock : ℕ
  pub decode : Bytes → Text
  pub parse_json : Text → Option Json

-- The timing, with the number of readings taken of the clock.
pub record Watch : Type 0 where
  pub timing : Timing
  pub reads : ℕ

-- The variables of `probe`, the requests sent, the last one first, and the dispatchers.
pub record Run : Type 0 where
  pub watch : Watch
  pub target : Url
  pub method : Text
  pub headers : Headers
  pub headers_dropped : Bool
  pub redirects : ℕ
  pub cert_expires_at : Option ℕ
  pub evaluated_status : Option ℕ
  pub sent : List Sent
  pub opened : ℕ
  pub destroyed : ℕ

-- How a hop ends.
pub data HopEnd : Type 0 where
  verdict : Verdict → HopEnd
  follow : HopEnd
  threw : Thrown → HopEnd

pub record Probed : Type 0 where
  pub outcome : ProbeOutcome
  pub run : Run

pub data ProbeResult : Type 0 where
  ran : Probed → ProbeResult
  bad_url : ProbeResult
  out_of_fuel : ProbeResult

unfoldable pub status_matches : ℕ → List StatusRange → Bool
status_matches status [] = leb 200 status && ltb status 300
status_matches status (r ∷ ranges) =
    any (λ range. leb range.min status && leb status range.max) (r ∷ ranges)

abbrev pub fail : Option ℕ → FailureClass → Option Text → Bool → Verdict
fail status failure_class code truncated = record {
  success = false;
  status = status;
  failure_class = some failure_class;
  code = code;
  truncated = truncated;
}

abbrev pub fail_as : Option ℕ → Classification → Verdict
fail_as status c = fail status c.failure_class c.code false

abbrev pub pin_of : Bool → List Address → Option Address
pin_of false addresses = none
pin_of true [] = none
pin_of true (a ∷ addresses) = some a

-- `tls.certExpiresAt ?? certExpiresAt`, for each verdict.
abbrev pub last_expiry : List (Option ℕ) → Option ℕ → Option ℕ
last_expiry [] kept = kept
last_expiry (none ∷ verdicts) kept = last_expiry verdicts kept
last_expiry (some at ∷ verdicts) kept = last_expiry verdicts (some at)

abbrev pub reaches : Network → Validation ValidatedUrl → Bool
reaches net (invalid e) = false
reaches net (valid v) = elim (net.literal v.hostname) [ none ↦ true | some a ↦ false ]

-- `resolver.ran()`: the guard comes to the resolver past its other checks, for a name.
unfoldable pub resolver_runs : Network → Text → SsrfGuardConfig → Bool
resolver_runs net raw cfg =
    cfg.enabled && reaches net (assert_saveable_url net raw (record cfg { enabled = false }))
