-- ===== src/Probing/Probe/Tests.antt =====
-- A probe over one redirect to another origin.
use probeboard_api.Common.{
  suc, ◌≤◌, ◌≡◌, refl, true, false, none, [], ◌∷◌, map, length, All, Text, codes,
}
use probeboard_api.Ssrf.{assert_saveable_url}
use probeboard_api.Assertions.Evaluate.{evaluate_assertions}
use probeboard_api.Probing.Redirects.{Headers, method_for_redirect, headers_for_hop}
use probeboard_api.Probing.BodyCap.{read_capped_body}
use probeboard_api.Probing.FailureClasses.{unknown_error}
use probeboard_api.Probing.Timing.{reset_hop, create_timing, mark, has_ended, mark_terminal}
use probeboard_api.Ssrf.BlockList.{
  is_blocked_address, check, rule_matches, same_prefix, block_list, block_list4, block_list6,
  global_exceptions,
}
use probeboard_api.Ssrf.{
  validate_url, guard_host, admit, bare_hostname, resolve_all, family_addresses,
}
use probeboard_api.Probing.Redirects.{origin_of, same_origin, default_port}
use probeboard_api.Probing.BodyCap.{read_loop, capped_of, concat, concat_from}
use probeboard_api.Probing.Timing.{reset_hop, create_timing}
use probeboard_api.Assertions.Evaluate.{evaluate_assertion}
use probeboard_api.Probing.Probe.{
  Probed, ProbeResult, ran, bad_url, out_of_fuel, status_matches, fail, resolver_runs,
}
use probeboard_api.Probing.Probe.Hop.{
  reach, reach_all, end_with, remaining_budget, verdict_of, evaluate, next_hop, redirect, answer,
  request, send, same_instant, attempt_hop,
}
use probeboard_api.Probing.Probe.Loop.{enter, outcome, finish, probe_loop, first_run, probe}
use probeboard_api.Probing.Probe.Invariant.{IsJudged, IsSafe}
use probeboard_api.Probing.Probe.Outcome.{probe_total, probe-IsSafe, probe-IsJudged}
use probeboard_api.Storage.OutcomeMapping.Labels.{Labelled, probe-outcome_label}
use probeboard_api.Probing.Probe.Sample.{home, platform, config, deps}

abbrev probed_or : ProbeResult → Probed → Probed
probed_or (ran p) default = p
probed_or bad_url default = default
probed_or out_of_fuel default = default

abbrev the_probed : Probed
the_probed = probed_or (probe platform config deps) (
    outcome platform config deps (fail none unknown_error none false)
      (first_run platform config deps home))

runs : probe platform config deps ≡ ran the_probed
unfolding probe probe_loop first_run outcome finish enter attempt_hop send request remaining_budget
    answer redirect next_hop evaluate verdict_of reach reach_all end_with same_instant resolver_runs
    status_matches assert_saveable_url validate_url guard_host admit bare_hostname resolve_all
    family_addresses is_blocked_address check rule_matches same_prefix block_list block_list4
    block_list6 global_exceptions headers_for_hop method_for_redirect same_origin origin_of
    default_port read_capped_body read_loop capped_of concat concat_from evaluate_assertions
    evaluate_assertion mark has_ended mark_terminal
runs = refl

-- The second request goes to the other origin without the header.
second_is_bare :
    map {B = Text × Headers} (λ s. (s.url.hostname, s.headers)) the_probed.run.sent
    ≡ (codes "b.io", []) ∷ (codes "a.io", (codes "X-Key", codes "k") ∷ []) ∷ []
unfolding probe probe_loop first_run outcome finish enter attempt_hop send request remaining_budget
    answer redirect next_hop evaluate verdict_of reach reach_all end_with same_instant resolver_runs
    status_matches assert_saveable_url validate_url guard_host admit bare_hostname resolve_all
    family_addresses is_blocked_address check rule_matches same_prefix block_list block_list4
    block_list6 global_exceptions headers_for_hop method_for_redirect same_origin origin_of
    default_port read_capped_body read_loop capped_of concat concat_from evaluate_assertions
    evaluate_assertion mark has_ended mark_terminal reset_hop create_timing
second_is_bare = refl

probe_total_example :
    (p : Probed) × (probe platform config deps ≡ ran p)
    × (p.outcome.redirects ≤ 1)
    × (length p.run.sent ≤ suc p.outcome.redirects)
    × (p.run.opened ≡ p.run.destroyed)
    × (has_ended p.run.watch.timing ≡ true)
probe_total_example = probe_total platform config deps home refl

probe-IsSafe_example : All (IsSafe platform config deps home) the_probed.run.sent
probe-IsSafe_example = probe-IsSafe platform config deps home the_probed refl runs

probe-IsJudged_example :
    IsJudged platform config deps the_probed.run.redirects the_probed.run.sent
      the_probed.outcome.verdict
probe-IsJudged_example = probe-IsJudged platform config deps home the_probed refl runs

probe-outcome_label_example : Labelled the_probed.outcome.verdict
probe-outcome_label_example = probe-outcome_label platform config deps home the_probed refl runs
