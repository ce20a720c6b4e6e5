-- ===== src/Probing/Probe/Hops.antt =====
-- What a hop keeps true, from the guard on.
use probeboard_api.Common.{
  suc, ◌≡◌, refl, ap, ◌≢◌, inl, inr, Bool, true, false, Option, none, some, List, [], ◌∷◌, arith,
  Bool-cases, All,
}
use probeboard_api.Web.{Url}
use probeboard_api.Ssrf.BlockList.{Address}
use probeboard_api.Ssrf.{ValidatedUrl, Validation, valid, invalid, assert_saveable_url}
use probeboard_api.Probing.FailureClasses.{Thrown}
use probeboard_api.Probing.Timing.{HopBoundary, failed_at}
use mathlib.Core.Path.{subst}
use probeboard_api.Ssrf.BlockList.{is_blocked_address}
use probeboard_api.Ssrf.Safety.{assert_saveable_url-IsSaveable}
use probeboard_api.Probing.Probe.{
  EndpointProbeConfig, ProbeDeps, Sent, Exchange, broke, answered, Platform, Watch, Run, pin_of,
  resolver_runs,
}
use probeboard_api.Probing.Probe.Hop.{
  exchanged, request, remaining_budget, send, pinned, resolved, guarded, raced, attempt_hop,
  raw_target,
}
use probeboard_api.Probing.Probe.Invariant.{IsSafe, IsReady, IsOver, Ends, IsOut}
use probeboard_api.Probing.Probe.Laws.{fail-IsJudged, torn_down-IsOver, answer-Ends}

module _ (env : Platform) (config : EndpointProbeConfig) (deps : ProbeDeps) where
  request-IsSafe :
      (origin : Url) (pin : Option Address) (r : Run)
      → IsReady env config deps origin r
      → (deps.ssrf.enabled ≡ true → (a : Address) × (pin ≡ some a) × (is_blocked_address a ≡ false))
      → IsSafe env config deps origin (request env config deps pin r)
  unfolding request remaining_budget
  request-IsSafe origin pin r h pinned = record {
    pinned = pinned;
    own = h.own;
    home = h.home;
    budget = omega arith;
  }

  exchanged-Ends :
      (origin : Url) (exchange : Exchange) (s : Sent) (earlier : List Sent) (r : Run)
      → env.transport r.redirects s ≡ exchange
      → r.sent ≡ s ∷ earlier
      → IsOut env config deps origin r
      → Ends env config deps origin r.redirects (exchanged env config deps origin exchange r)
  exchanged-Ends origin (broke boundaries verdicts e) s earlier r comes is h =
      torn_down-IsOver env config deps origin failed_at _ (record {
        bounded = h.bounded;
        own = h.own;
        safe = h.safe;
        count = h.count;
        released = h.released;
      })
  exchanged-Ends origin (answered boundaries verdicts response) s earlier r comes is h =
      answer-Ends env config deps origin response _ (rw is (boundaries, verdicts, comes)) (record {
        bounded = h.bounded;
        own = h.own;
        safe = h.safe;
        count = h.count;
        released = h.released;
      })

  send-Ends :
      (origin : Url) (pin : Option Address) (r : Run)
      → IsReady env config deps origin r
      → (deps.ssrf.enabled ≡ true → (a : Address) × (pin ≡ some a) × (is_blocked_address a ≡ false))
      → Ends env config deps origin r.redirects (send env config deps origin pin r)
  unfolding send
  send-Ends origin pin r h pinned =
      exchanged-Ends origin _ (request env config deps pin r) r.sent _ refl refl (record {
        bounded = h.bounded;
        own = h.own;
        safe = (request-IsSafe origin pin r h pinned, h.safe);
        count = ap suc h.count;
        released = ap suc h.released;
      })

  watched-IsReady :
      (origin : Url) (w : Watch) (r : Run)
      → IsReady env config deps origin r
      → IsReady env config deps origin (record r { watch = w })
  watched-IsReady origin w r h = record {
    bounded = h.bounded;
    own = h.own;
    home = h.home;
    safe = h.safe;
    count = h.count;
    released = h.released;
  }

  ready-IsOver :
      (origin : Url) (r : Run) → IsReady env config deps origin r → IsOver env config deps origin r
  ready-IsOver origin r h = record {
    bounded = h.bounded;
    safe = h.safe;
    count = omega (arith, h.count);
    released = h.released;
  }

  pinned-IsReady :
      (origin : Url) (r : Run)
      → IsReady env config deps origin r
      → IsReady env config deps origin (pinned env config deps r)
  pinned-IsReady origin r h =
      elim (Bool-cases
        (resolver_runs (env.network r.redirects) (raw_target env config deps r) deps.ssrf)) [
          | inl runs ↦ rw runs (watched-IsReady origin _ r h)
          | inr idle ↦ rw idle (watched-IsReady origin _ r h)
        ]

  pinned-redirects : (r : Run) → (pinned env config deps r).redirects ≡ r.redirects
  pinned-redirects r =
      elim (Bool-cases
        (resolver_runs (env.network r.redirects) (raw_target env config deps r) deps.ssrf)) [
          | inl runs ↦ rw runs refl
          | inr idle ↦ rw idle refl
        ]

  resolved-IsReady :
      (origin : Url) (r : Run)
      → IsReady env config deps origin r
      → IsReady env config deps origin (resolved env config deps r)
  resolved-IsReady origin r h =
      elim (Bool-cases
        (resolver_runs (env.network r.redirects) (raw_target env config deps r) deps.ssrf)) [
          | inl runs ↦ rw runs (watched-IsReady origin _ r h)
          | inr idle ↦ rw idle h
        ]

  pin_of-open :
      (on : Bool) (addresses : List Address)
      → (on ≡ true → (addresses ≢ []) × All (λ a. is_blocked_address a ≡ false) addresses)
      → on ≡ true
      → (a : Address) × (pin_of on addresses ≡ some a) × (is_blocked_address a ≡ false)
  pin_of-open true [] h e = absurd ((h refl).0 refl)
  pin_of-open true (a ∷ addresses) h e = (a, refl, (h refl).1.0)
  pin_of-open false addresses h e = cc

  guarded-Ends :
      (origin : Url) (r : Run) (v : Validation ValidatedUrl)
      → assert_saveable_url (env.network r.redirects) (raw_target env config deps r) deps.ssrf ≡ v
      → IsReady env config deps origin r
      → Ends env config deps origin r.redirects (guarded env config deps origin v r)
  guarded-Ends origin r (invalid error) e h = (
    fail-IsJudged env config deps _ _ none _ _ false,
    ready-IsOver origin _ (watched-IsReady origin _ _ (resolved-IsReady origin r h)),
  )
  guarded-Ends origin r (valid v) e h =
      let saveable = assert_saveable_url-IsSaveable _ _ _ v e in
      subst
        (λ n. Ends env config deps origin n (
          send env config deps origin (pin_of deps.ssrf.enabled v.addresses)
            (pinned env config deps r)))
        (pinned-redirects r)
        (send-Ends origin _ (pinned env config deps r) (pinned-IsReady origin r h) (
          pin_of-open deps.ssrf.enabled v.addresses
            (λ on. let (found, _, clear) = saveable.guarded on in (found, clear))))

  raced-Ends :
      (origin : Url) (abort : Option (List HopBoundary × Thrown)) (r : Run)
      → IsReady env config deps origin r
      → Ends env config deps origin r.redirects (raced env config deps origin abort r)
  raced-Ends origin (some (boundaries, e)) r h =
      ready-IsOver origin _ (watched-IsReady origin _ r h)
  raced-Ends origin none r h = guarded-Ends origin r _ refl h

  pub attempt_hop-Ends :
      (origin : Url) (r : Run)
      → IsReady env config deps origin r
      → Ends env config deps origin r.redirects (attempt_hop env config deps origin r)
  unfolding attempt_hop
  attempt_hop-Ends origin r h = raced-Ends origin (env.interrupts r.redirects) r h
