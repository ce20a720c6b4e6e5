-- ===== src/Probing/Probe/Invariant.antt =====
-- What holds of a run at each place of the loop, of its requests and of its verdict.
use probeboard_api.Common.{
  ℕ, suc, ◌≤◌, ◌≡◌, ◌↔◌, true, false, Option, none, some, List, [], ◌∷◌, length, All, Text,
}
use probeboard_api.Web.{Url}
use probeboard_api.Ssrf.BlockList.{Address}
use probeboard_api.Assertions.Evaluate.{passed, evaluate_assertions}
use probeboard_api.Probing.BodyCap.{CappedBody, complete, read_capped_body}
use probeboard_api.Probing.Timing.{HopBoundary}
use probeboard_api.Ssrf.BlockList.{is_blocked_address}
use probeboard_api.Probing.Redirects.{same_origin}
use probeboard_api.Probing.Redirects.Laws.{Has}
use probeboard_api.Probing.Probe.{
  EndpointProbeConfig, ProbeDeps, Verdict, Sent, Response, answered, Platform, Run, HopEnd, verdict,
  follow, threw, status_matches,
}
use probeboard_api.Probing.Probe.Hop.{max_hops, response_of}

module _ (env : Platform) (config : EndpointProbeConfig) (deps : ProbeDeps) where
  -- The last of the requests, sent after `hops` redirects, was answered with the response.
  abbrev pub Received : ℕ → List Sent → Response → Type 0
  Received hops [] response = ⊥
  Received hops (s ∷ sent) response =
      (boundaries : List HopBoundary) × (expiries : List (Option ℕ)) × (env.transport hops s
        ≡ answered boundaries expiries response)

  -- The response that a success is of: its status is the one reported, which is expected, and its
  -- body, read under the cap, is one that every assertion passes.
  pub record IsGranted (hops : ℕ) (sent : List Sent) (v : Verdict) : Type 0 where
    pub response : Response
    pub body : CappedBody
    pub received : Received hops sent response
    pub reported : v.status ≡ some response.status
    pub read :
        read_capped_body env.decode response.cancel_error response.body deps.max_body_bytes
        ≡ complete body
    pub cut : v.truncated ≡ body.truncated
    pub matches : status_matches response.status config.expected_status ≡ true
    pub holds :
        evaluate_assertions env.parse_json config.assertions (response_of env config deps body)
        ≡ passed

  -- A success names no failure, and is that of the last response.
  pub record IsJudged (hops : ℕ) (sent : List Sent) (v : Verdict) : Type 0 where
    pub failed : (v.success ≡ true) ↔ (v.failure_class ≡ none)
    pub granted : v.success ≡ true → IsGranted hops sent v

  -- With the guard on, a request is pinned to an address that is not blocked; its headers are of
  -- the configured ones, and there are none off the origin.
  pub record IsSafe (origin : Url) (s : Sent) : Type 0 where
    pub pinned :
        deps.ssrf.enabled ≡ true → (a : Address) × (s.pin ≡ some a) × (is_blocked_address a ≡ false)
    pub own : (e : Text × Text) → Has s.headers e → Has config.headers e
    pub home : (e : Text × Text) → Has s.headers e → same_origin s.url origin ≡ true
    pub budget : 1 ≤ s.timeout_ms

  -- What holds of a run at the head of the loop.
  pub record IsReady (origin : Url) (r : Run) : Type 0 where
    pub bounded : r.redirects ≤ max_hops env config deps
    pub own : (e : Text × Text) → Has r.headers e → Has config.headers e
    pub home : (e : Text × Text) → Has r.headers e → same_origin r.target origin ≡ true
    pub safe : All (IsSafe origin) r.sent
    pub count : length r.sent ≡ r.redirects
    pub released : r.opened ≡ r.destroyed

  -- What holds of a run that has ended.
  pub record IsOver (origin : Url) (r : Run) : Type 0 where
    pub bounded : r.redirects ≤ max_hops env config deps
    pub safe : All (IsSafe origin) r.sent
    pub count : length r.sent ≤ suc r.redirects
    pub released : r.opened ≡ r.destroyed

  -- A hop from redirect `n` leaves the probe over, or ready for the next hop.
  abbrev pub Ends : Url → ℕ → HopEnd × Run → Type 0
  Ends origin n (verdict v, r) = IsJudged r.redirects r.sent v × IsOver origin r
  Ends origin n (threw e, r) = IsOver origin r
  Ends origin n (follow, r) = (r.redirects ≡ suc n) × IsReady origin r

  -- A request is out: one more than the redirects, and its dispatcher not yet destroyed.
  pub record IsOut (origin : Url) (r : Run) : Type 0 where
    pub bounded : r.redirects ≤ max_hops env config deps
    pub own : (e : Text × Text) → Has r.headers e → Has config.headers e
    pub safe : All (IsSafe origin) r.sent
    pub count : length r.sent ≡ suc r.redirects
    pub released : r.opened ≡ suc r.destroyed
