-- ===== src/Probing/Probe/Laws.antt =====
-- What a hop leaves once its response is there.
use probeboard_api.Common.{
  ℕ, ◌<◌, ◌≡◌, refl, inl, inr, Bool, true, false, not, ◌&&◌, Option, none, some, List, [], ◌∷◌,
  arith, leb, Bool-cases, Text, text_eq,
}
use probeboard_api.Web.{Url}
use probeboard_api.Assertions.Evaluate.{AssertionResult, passed, refused, evaluate_assertions}
use probeboard_api.Probing.Redirects.{is_followed_redirect, method_for_redirect}
use probeboard_api.Probing.BodyCap.{CappedBody, ReadResult, complete, thrown, read_capped_body}
use probeboard_api.Probing.FailureClasses.{
  FailureClass, status_mismatch, assertion_failed, too_many_redirects, unknown_error, Thrown,
}
use probeboard_api.Probing.Timing.{TerminalBoundary, transferred, failed_at}
use probeboard_api.Probing.Redirects.Laws.{headers_for_hop_rules}
use probeboard_api.Probing.Probe.{
  EndpointProbeConfig, ProbeDeps, Sent, Response, Platform, Run, status_matches, fail,
}
use probeboard_api.Probing.Probe.Hop.{
  max_hops, verdict_of, response_of, has_passed, judged, evaluate, next_hop, redirect, answer,
  torn_down,
}
use probeboard_api.Probing.Probe.Invariant.{Received, IsJudged, IsOver, Ends, IsOut}

module _ (env : Platform) (config : EndpointProbeConfig) (deps : ProbeDeps) where
  pub fail-IsJudged :
      (hops : ℕ) (sent : List Sent) (status : Option ℕ) (c : FailureClass) (code : Option Text)
      (cut : Bool)
      → IsJudged env config deps hops sent (fail status c code cut)
  fail-IsJudged hops sent status c code cut = record {
    failed = (λ e. cc, λ e. cc);
    granted = λ e. cc;
  }

  has_passed-passed :
      (result : AssertionResult) → has_passed env config deps result ≡ true → result ≡ passed
  has_passed-passed passed h = refl
  has_passed-passed (refused reason) h = cc

  verdict_of-IsJudged :
      (hops : ℕ) (sent : List Sent) (response : Response) (body : CappedBody)
      → Received env config deps hops sent response
      → read_capped_body env.decode response.cancel_error response.body deps.max_body_bytes
        ≡ complete body
      → IsJudged env config deps hops sent (verdict_of env config deps response.status body)
  unfolding verdict_of
  verdict_of-IsJudged hops sent response body heard whole =
      let status = response.status in
      elim (Bool-cases (status_matches status config.expected_status)) [
        | inr off ↦
            rw off (fail-IsJudged hops sent (some status) status_mismatch none body.truncated)
        | inl on ↦
            elim (Bool-cases (
              has_passed env config deps (
                evaluate_assertions env.parse_json config.assertions
                  (response_of env config deps body)))) [
                    | inr lost ↦
                        rw (on, lost)
                          (fail-IsJudged hops sent (some status) assertion_failed none
                            body.truncated)
                    | inl held ↦
                        rw (on, held)
                          (record {
                            failed = (λ e. refl, λ e. refl);
                            granted = λ e. record {
                              response = response;
                              body = body;
                              received = heard;
                              reported = refl;
                              read = whole;
                              cut = refl;
                              matches = on;
                              holds = has_passed-passed _ held;
                            };
                          })
                  ]
      ]

  pub torn_down-IsOver :
      (origin : Url) (b : TerminalBoundary) (r : Run)
      → IsOut env config deps origin r
      → IsOver env config deps origin (torn_down env config deps b r)
  torn_down-IsOver origin b r h = record {
    bounded = h.bounded;
    safe = h.safe;
    count = ground (arith, h.count);
    released = h.released;
  }

  judged-Ends :
      (origin : Url) (n : ℕ) (response : Response) (read : ReadResult Thrown CappedBody) (r : Run)
      → read_capped_body env.decode response.cancel_error response.body deps.max_body_bytes ≡ read
      → Received env config deps r.redirects r.sent response
      → IsOut env config deps origin r
      → Ends env config deps origin n (judged env config deps response.status read r)
  judged-Ends origin n response (thrown e) r whole heard h = torn_down-IsOver origin failed_at r h
  judged-Ends origin n response (complete body) r whole heard h = (
    verdict_of-IsJudged r.redirects r.sent response body heard whole,
    torn_down-IsOver origin transferred r h,
  )

  evaluate-Ends :
      (origin : Url) (n : ℕ) (response : Response) (r : Run)
      → Received env config deps r.redirects r.sent response
      → IsOut env config deps origin r
      → Ends env config deps origin n (evaluate env config deps response r)
  unfolding evaluate
  evaluate-Ends origin n response r heard h =
      judged-Ends origin n response _ (record r { evaluated_status = some response.status }) refl
        heard
        (record {
          bounded = h.bounded;
          own = h.own;
          safe = h.safe;
          count = h.count;
          released = h.released;
        })

  next_hop-Ends :
      (origin : Url) (response : Response) (next : Option Url) (r : Run)
      → IsOut env config deps origin r
      → r.redirects < max_hops env config deps
      → Ends env config deps origin r.redirects (next_hop env config deps origin response next r)
  unfolding next_hop
  next_hop-Ends origin response none r h k =
      (fail-IsJudged _ _ none unknown_error _ false, torn_down-IsOver origin failed_at r h)
  next_hop-Ends origin response (some next) r h k =
      let (sub, home, _, _) = headers_for_hop_rules (record {
        headers = r.headers;
        target = next;
        origin = origin;
        already_dropped = r.headers_dropped;
        rewritten_to_get = not (text_eq (method_for_redirect response.status r.method) r.method);
      }) in
      (
        refl,
        record {
          bounded = omega (arith, k);
          own = λ e has'. h.own e (sub e has');
          home = home;
          safe = h.safe;
          count = h.count;
          released = h.released;
        },
      )

  redirect-Ends :
      (origin : Url) (response : Response) (location : Option Text) (r : Run)
      → Received env config deps r.redirects r.sent response
      → IsOut env config deps origin r
      → Ends env config deps origin r.redirects
          (redirect env config deps origin response location r)
  unfolding redirect
  redirect-Ends origin response none r heard h = evaluate-Ends origin r.redirects response r heard h
  redirect-Ends origin response (some []) r heard h =
      evaluate-Ends origin r.redirects response r heard h
  redirect-Ends origin response (some (c ∷ location)) r heard h =
      elim (Bool-cases (leb (max_hops env config deps) r.redirects)) [
        | inl spent ↦ rw spent (
          fail-IsJudged _ _ none too_many_redirects none false,
          torn_down-IsOver origin failed_at r h,
        )
        | inr left ↦ rw left (next_hop-Ends origin response _ r h (ground arith))
      ]

  pub answer-Ends :
      (origin : Url) (response : Response) (r : Run)
      → Received env config deps r.redirects r.sent response
      → IsOut env config deps origin r
      → Ends env config deps origin r.redirects (answer env config deps origin response r)
  unfolding answer
  answer-Ends origin response r heard h =
      elim (Bool-cases (config.follow_redirects && is_followed_redirect response.status)) [
        | inr final ↦ rw final (evaluate-Ends origin r.redirects response r heard h)
        | inl followed ↦ rw followed (redirect-Ends origin response response.location r heard h)
      ]
