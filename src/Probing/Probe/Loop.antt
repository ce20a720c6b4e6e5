-- ===== src/Probing/Probe/Loop.antt =====
-- worker/probing/utils/probe.ts: the loop over the hops, and the outcome.
use probeboard_api.Common.{
  ℕ, zero, suc, Bool, true, false, Option, none, some, [], ltb, if◌then◌else◌, text_eq,
  to_upper_case,
}
use probeboard_api.Web.{Url, https}
use probeboard_api.Probing.FailureClasses.{Thrown, classify_error, classify_abort, is_abort_error}
use probeboard_api.Probing.Timing.{
  TerminalBoundary, transferred, failed_at, create_timing, reset_hop, has_ended, derived,
}
use probeboard_api.Probing.Probe.{
  EndpointProbeConfig, ProbeDeps, Verdict, Platform, Watch, Run, HopEnd, verdict, follow, threw,
  Probed, ProbeResult, ran, bad_url, out_of_fuel, fail, fail_as,
}
use probeboard_api.Probing.Probe.Hop.{attempt_hop, max_hops, end_with, watched}

module _ (env : Platform) (config : EndpointProbeConfig) (deps : ProbeDeps) where
  abbrev pub reset_watch : Watch → Watch
  reset_watch w = record w { timing = reset_hop w.timing }

  -- The head of the loop: a hop that follows another starts clean.
  unfoldable pub enter : Run → Run
  enter r =
      if ltb 0 r.redirects
      then record r { watch = reset_watch r.watch; cert_expires_at = none }
      else r

  unfoldable pub outcome : Verdict → Run → Probed
  outcome v r = record {
    outcome = record {
      monitor_id = config.monitor_id;
      started_at = r.watch.timing.started_at;
      verdict = v;
      timings = derived (env.clock r.watch.reads) r.watch.timing;
      cert_expires_at = r.cert_expires_at;
      redirects = r.redirects;
    };
    run = r;
  }

  -- The boundary that ends a verdict reached with no terminal boundary yet.
  abbrev pub closing : Bool → TerminalBoundary
  closing true = transferred
  closing false = failed_at

  unfoldable pub finish : Verdict → Run → Probed
  finish v r = outcome v (
      if has_ended r.watch.timing
      then r
      else watched env config deps (end_with env config deps (closing v.success)) r)

  -- What the `catch` makes of an error.
  unfoldable pub classified : Thrown → Run → Verdict
  classified e r =
      if is_abort_error env.heap e
      then fail r.evaluated_status
          (classify_abort r.watch.timing.boundaries (text_eq r.target.protocol https)) none false
      else fail_as r.evaluated_status (classify_error env.heap e)

  unfoldable pub caught : Thrown → Run → Probed
  caught e r =
      let failed = watched env config deps (end_with env config deps failed_at) r in
      outcome (classified e failed) failed

  abbrev pub settle : HopEnd × Run → ProbeResult → ProbeResult
  settle (verdict v, r) again = ran (finish v r)
  settle (follow, r) again = again
  settle (threw e, r) again = ran (caught e r)

  -- The `for (;;)` loop, with the hops that are left.
  unfoldable mutual
    pub probe_loop : ℕ → Url → Run → ProbeResult
    probe_loop zero origin r = out_of_fuel
    probe_loop (suc hops) origin r =
        let end = attempt_hop env config deps origin (enter r) in
        let again = probe_loop hops origin end.1 in settle end again

  unfoldable pub first_run : Url → Run
  first_run origin = record {
    watch = record { timing = create_timing (env.clock 0) env.wall_clock; reads = 2 };
    target = origin;
    method = to_upper_case config.method;
    headers = config.headers;
    headers_dropped = false;
    redirects = 0;
    cert_expires_at = none;
    evaluated_status = none;
    sent = [];
    opened = 0;
    destroyed = 0;
  }

  abbrev pub probe_from : Option Url → ProbeResult
  probe_from none = bad_url
  probe_from (some origin) = probe_loop (suc (max_hops env config deps)) origin (first_run origin)

  unfoldable pub probe : ProbeResult
  unfolding probe_loop
  probe = probe_from (env.urls.parse config.url)
