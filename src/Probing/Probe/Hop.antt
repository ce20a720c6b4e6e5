-- ===== src/Probing/Probe/Hop.antt =====
-- worker/probing/utils/probe.ts: a hop, and the loop over the hops.
use probeboard_api.Common.{
  ℕ, suc, ◌+◌, ◌-◌, min, max, Bool, true, false, not, ◌&&◌, ◌||◌, Option, none, some, List, [], ◌∷◌,
  leb, if◌then◌else◌, Text, codes, text_eq,
}
use probeboard_api.Web.{Url}
use probeboard_api.Ssrf.BlockList.{Address}
use probeboard_api.Ssrf.{ValidatedUrl, Validation, valid, invalid, assert_saveable_url}
use probeboard_api.Assertions.Evaluate.{
  ResponseBody, AssertionResult, passed, refused, evaluate_assertions,
}
use probeboard_api.Probing.Redirects.{
  get, head, is_followed_redirect, method_for_redirect, headers_for_hop,
}
use probeboard_api.Probing.BodyCap.{CappedBody, ReadResult, complete, thrown, read_capped_body}
use probeboard_api.Probing.FailureClasses.{
  status_mismatch, assertion_failed, too_many_redirects, unknown_error, Thrown,
}
use probeboard_api.Probing.GuardPin.{classify_guard_rejection}
use probeboard_api.Probing.Timing.{
  HopBoundary, dns_start, dns_done, first_byte, TerminalBoundary, transferred, blocked_at,
  failed_at, mark, mark_same, has_ended, mark_terminal,
}
use probeboard_api.Probing.Probe.{
  EndpointProbeConfig, ProbeDeps, Verdict, Sent, Response, Exchange, broke, answered, Platform,
  Watch, Run, HopEnd, verdict, follow, threw, status_matches, fail, fail_as, pin_of, last_expiry,
  resolver_runs,
}

module _ (env : Platform) (config : EndpointProbeConfig) (deps : ProbeDeps) where
  abbrev pub deadline_ms : ℕ
  deadline_ms = min config.timeout_ms deps.max_timeout_ms

  abbrev pub max_hops : ℕ
  max_hops = min config.max_redirects deps.max_redirects_cap

  -- The second reading of the clock.
  abbrev pub deadline_from : ℕ
  deadline_from = env.clock 1

  unfoldable pub reach : HopBoundary → Watch → Watch
  reach boundary w = record {
    timing = mark boundary (env.clock w.reads) w.timing;
    reads = suc w.reads;
  }

  unfoldable pub reach_all : List HopBoundary → Watch → Watch
  unfolding reach
  reach_all [] w = w
  reach_all (boundary ∷ boundaries) w = reach_all boundaries (reach boundary w)

  unfoldable pub end_with : TerminalBoundary → Watch → Watch
  end_with boundary w = if has_ended w.timing then w else record {
    timing = mark_terminal boundary (env.clock w.reads) w.timing;
    reads = suc w.reads;
  }

  abbrev pub watched : (Watch → Watch) → Run → Run
  watched f r = record r { watch = f r.watch }

  -- The end of the endpoint's part in a hop, and then the teardown.
  abbrev pub torn_down : TerminalBoundary → Run → Run
  torn_down boundary r = record r { watch = end_with boundary r.watch; destroyed = suc r.destroyed }

  unfoldable pub remaining_budget : Run → ℕ
  remaining_budget r = max (deadline_ms + deadline_from - env.clock r.watch.reads) 1

  abbrev pub response_of : CappedBody → ResponseBody
  response_of body = record { text = body.text; truncated = body.truncated }

  abbrev pub has_passed : AssertionResult → Bool
  has_passed passed = true
  has_passed (refused reason) = false

  unfoldable pub verdict_of : ℕ → CappedBody → Verdict
  verdict_of status body =
      if not (status_matches status config.expected_status)
      then fail (some status) status_mismatch none body.truncated
      else if not
          (has_passed (evaluate_assertions env.parse_json config.assertions (response_of body)))
      then fail (some status) assertion_failed none body.truncated
      else record {
        success = true;
        status = some status;
        failure_class = none;
        code = none;
        truncated = body.truncated;
      }

  -- `evaluate`, from the end of the read on.
  abbrev pub judged : ℕ → ReadResult Thrown CappedBody → Run → HopEnd × Run
  judged status (thrown e) r = (threw e, torn_down failed_at r)
  judged status (complete body) r = (verdict (verdict_of status body), torn_down transferred r)

  unfoldable pub evaluate : Response → Run → HopEnd × Run
  evaluate response r =
      judged response.status
        (read_capped_body env.decode response.cancel_error response.body deps.max_body_bytes)
        (record r { evaluated_status = some response.status })

  -- What `attemptHop` does from the parse of the location on.
  unfoldable pub next_hop : Url → Response → Option Url → Run → HopEnd × Run
  next_hop origin response none r = (
    verdict (fail none unknown_error (some (codes "INVALID_LOCATION")) false),
    torn_down failed_at r,
  )
  next_hop origin response (some next) r =
      let next_method = method_for_redirect response.status r.method in
      let hop = headers_for_hop (record {
        headers = r.headers;
        target = next;
        origin = origin;
        already_dropped = r.headers_dropped;
        rewritten_to_get = not (text_eq next_method r.method);
      }) in
      (
        follow,
        record r {
          target = next;
          method = next_method;
          headers = hop.headers;
          headers_dropped = hop.dropped;
          redirects = suc r.redirects;
          destroyed = suc r.destroyed;
        },
      )

  -- From the `Location` header of a followable response on.
  unfoldable pub redirect : Url → Response → Option Text → Run → HopEnd × Run
  redirect origin response none r = evaluate response r
  redirect origin response (some []) r = evaluate response r
  redirect origin response (some (c ∷ location)) r =
      if leb max_hops r.redirects
      then (verdict (fail none too_many_redirects none false), torn_down failed_at r)
      else next_hop origin response (env.urls.join (c ∷ location) r.target) r

  unfoldable pub answer : Url → Response → Run → HopEnd × Run
  answer origin response r =
      if not (config.follow_redirects && is_followed_redirect response.status)
      then evaluate response r
      else redirect origin response response.location r

  abbrev pub observed : List HopBoundary → List (Option ℕ) → Run → Run
  observed boundaries verdicts r = record r {
    watch = reach_all boundaries r.watch;
    cert_expires_at = last_expiry verdicts r.cert_expires_at;
  }

  abbrev pub exchanged : Url → Exchange → Run → HopEnd × Run
  exchanged origin (broke boundaries verdicts e) r =
      (threw e, torn_down failed_at (observed boundaries verdicts r))
  exchanged origin (answered boundaries verdicts response) r =
      answer origin response (watched (reach first_byte) (observed boundaries verdicts r))

  unfoldable pub request : Option Address → Run → Sent
  request pin r = record {
    url = r.target;
    method = r.method;
    headers = r.headers;
    body = if text_eq r.method get || text_eq r.method head then none else config.body;
    pin = pin;
    timeout_ms = remaining_budget r;
  }

  -- From the dispatcher on.
  unfoldable pub send : Url → Option Address → Run → HopEnd × Run
  send origin pin r = exchanged origin (env.transport r.redirects (request pin r)) (record r {
    watch = record { timing = r.watch.timing; reads = suc r.watch.reads };
    sent = request pin r ∷ r.sent;
    opened = suc r.opened;
  })

  abbrev pub raw_target : Run → Text
  raw_target r = env.urls.to_string r.target

  -- The boundaries of the timed resolver: one start, and the end of each family.
  abbrev pub resolved : Run → Run
  resolved r =
      if resolver_runs (env.network r.redirects) (raw_target r) deps.ssrf
      then watched (reach_all (dns_start ∷ dns_done ∷ dns_done ∷ [])) r
      else r

  unfoldable pub same_instant : Watch → Watch
  same_instant w = record {
    timing = mark_same (dns_start ∷ dns_done ∷ []) (env.clock w.reads) w.timing;
    reads = suc w.reads;
  }

  abbrev pub pinned : Run → Run
  pinned r =
      if resolver_runs (env.network r.redirects) (raw_target r) deps.ssrf
      then watched (reach_all (dns_start ∷ dns_done ∷ dns_done ∷ [])) r
      else watched same_instant r

  abbrev pub guarded : Url → Validation ValidatedUrl → Run → HopEnd × Run
  guarded origin (invalid error) r = (
    verdict (fail_as none (classify_guard_rejection error)),
    watched (end_with blocked_at) (resolved r),
  )
  guarded origin (valid v) r = send origin (pin_of deps.ssrf.enabled v.addresses) (pinned r)

  abbrev pub raced : Url → Option (List HopBoundary × Thrown) → Run → HopEnd × Run
  raced origin (some (boundaries, e)) r = (threw e, watched (reach_all boundaries) r)
  raced origin none r =
      guarded origin (assert_saveable_url (env.network r.redirects) (raw_target r) deps.ssrf) r

  unfoldable pub attempt_hop : Url → Run → HopEnd × Run
  attempt_hop origin r = raced origin (env.interrupts r.redirects) r
