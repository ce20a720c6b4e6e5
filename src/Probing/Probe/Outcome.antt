-- ===== src/Probing/Probe/Outcome.antt =====
-- What a probe comes to: it ends, within its budget, and reports what it saw.
use probeboard_api.Common.{
  ℕ, zero, suc, ◌+◌, ◌≤◌, ◌<◌, min, ◌≡◌, refl, sym, ◌∙◌, inl, inr, true, some, arith, ltb,
  Bool-cases, length, All, Text, text_eq, text_eq_iff,
}
use probeboard_api.Web.{Url}
use probeboard_api.Probing.FailureClasses.{Thrown, is_abort_error}
use probeboard_api.Probing.Timing.{TerminalBoundary, failed_at, has_ended, mark_terminal}
use mathlib.Core.Path.{subst}
use probeboard_api.Probing.Redirects.{same_origin, origin_of}
use probeboard_api.Probing.Probe.{
  EndpointProbeConfig, ProbeDeps, Verdict, Platform, Watch, Run, HopEnd, verdict, follow, threw,
  Probed, ProbeResult, ran,
}
use probeboard_api.Probing.Probe.Hop.{max_hops, attempt_hop, end_with}
use probeboard_api.Probing.Probe.Loop.{
  enter, outcome, closing, finish, caught, classified, settle, probe_loop, first_run, probe,
}
use probeboard_api.Probing.Probe.Invariant.{IsJudged, IsSafe, IsReady, IsOver, Ends}
use probeboard_api.Probing.Probe.Laws.{fail-IsJudged}
use probeboard_api.Probing.Probe.Hops.{attempt_hop-Ends}

module _ (env : Platform) (config : EndpointProbeConfig) (deps : ProbeDeps) where
  record IsSound (origin : Url) (p : Probed) : Type 0 where
    judged : IsJudged env config deps p.run.redirects p.run.sent p.outcome.verdict
    over : IsOver env config deps origin p.run
    ended : has_ended p.run.watch.timing ≡ true
    shown : p.outcome.redirects ≡ p.run.redirects

  end_with-has_ended :
      (b : TerminalBoundary) (w : Watch) → has_ended (end_with env config deps b w).timing ≡ true
  unfolding end_with has_ended mark_terminal
  end_with-has_ended b w = ground arith

  rewatched-IsOver :
      (origin : Url) (w : Watch) (r : Run)
      → IsOver env config deps origin r
      → IsOver env config deps origin (record r { watch = w })
  rewatched-IsOver origin w r h = record {
    bounded = h.bounded;
    safe = h.safe;
    count = h.count;
    released = h.released;
  }

  finish-IsSound :
      (origin : Url) (v : Verdict) (r : Run)
      → IsJudged env config deps r.redirects r.sent v
      → IsOver env config deps origin r
      → IsSound origin (finish env config deps v r)
  unfolding finish outcome
  finish-IsSound origin v r j h = elim (Bool-cases (has_ended r.watch.timing)) [
    | inl over ↦ rw over (record { judged = j; over = h; ended = over; shown = refl })
    | inr running ↦ rw running (record {
      judged = j;
      over = rewatched-IsOver origin _ r h;
      ended = end_with-has_ended (closing env config deps v.success) r.watch;
      shown = refl;
    })
  ]

  classified-IsJudged :
      (e : Thrown) (r : Run)
      → IsJudged env config deps r.redirects r.sent (classified env config deps e r)
  unfolding classified
  classified-IsJudged e r = elim (Bool-cases (is_abort_error env.heap e)) [
    | inl abort ↦ rw abort (fail-IsJudged env config deps _ _ _ _ _ _)
    | inr other ↦ rw other (fail-IsJudged env config deps _ _ _ _ _ _)
  ]

  caught-IsSound :
      (origin : Url) (e : Thrown) (r : Run)
      → IsOver env config deps origin r
      → IsSound origin (caught env config deps e r)
  unfolding caught outcome
  caught-IsSound origin e r h = record {
    judged = classified-IsJudged e _;
    over = rewatched-IsOver origin _ r h;
    ended = end_with-has_ended failed_at r.watch;
    shown = refl;
  }

  enter-IsReady :
      (origin : Url) (r : Run)
      → IsReady env config deps origin r
      → IsReady env config deps origin (enter env config deps r)
  unfolding enter
  enter-IsReady origin r h = elim (Bool-cases (ltb 0 r.redirects)) [
    | inl later ↦ rw later (record {
      bounded = h.bounded;
      own = h.own;
      home = h.home;
      safe = h.safe;
      count = h.count;
      released = h.released;
    })
    | inr first ↦ rw first h
  ]

  enter-redirects : (r : Run) → (enter env config deps r).redirects ≡ r.redirects
  unfolding enter
  enter-redirects r = elim (Bool-cases (ltb 0 r.redirects)) [
    | inl later ↦ rw later refl
    | inr first ↦ rw first refl
  ]

  abbrev Comes : Url → ProbeResult → Type 0
  Comes origin result = (p : Probed) × (result ≡ ran p) × IsSound origin p

  settle-Comes :
      (origin : Url) (n : ℕ) (end : HopEnd × Run) (again : ProbeResult)
      → Ends env config deps origin n end
      → (IsReady env config deps origin end.1 → end.1.redirects ≡ suc n → Comes origin again)
      → Comes origin (settle env config deps end again)
  settle-Comes origin n (verdict v, r) again (j, h) go = (_, refl, finish-IsSound origin v r j h)
  settle-Comes origin n (threw e, r) again h go = (_, refl, caught-IsSound origin e r h)
  settle-Comes origin n (follow, r) again (at, h) go = go h at

  probe_loop-Comes :
      (hops : ℕ) (origin : Url) (r : Run)
      → IsReady env config deps origin r
      → max_hops env config deps < hops + r.redirects
      → Comes origin (probe_loop env config deps hops origin r)
  unfolding probe_loop
  probe_loop-Comes zero origin r h k = absurd (omega (arith, h.bounded, k))
  probe_loop-Comes (suc hops) origin r h k =
      settle-Comes origin (enter env config deps r).redirects
        (attempt_hop env config deps origin (enter env config deps r)) _
        (attempt_hop-Ends env config deps origin (enter env config deps r)
          (enter-IsReady origin r h))
        (λ ready at. probe_loop-Comes hops origin _ ready (omega (arith, k, at, enter-redirects r)))

  text_eq_refl : (s : Text) → text_eq s s ≡ true
  text_eq_refl s = (text_eq_iff s s).1 refl

  first_run-IsReady :
      (origin : Url) → IsReady env config deps origin (first_run env config deps origin)
  unfolding first_run same_origin
  first_run-IsReady origin = record {
    bounded = omega arith;
    own = λ e has'. has';
    home = λ e has'. text_eq_refl (origin_of origin);
    safe = tt;
    count = refl;
    released = refl;
  }

  probe-Comes :
      (origin : Url)
      → env.urls.parse config.url ≡ some origin
      → Comes origin (probe env config deps)
  unfolding probe first_run
  probe-Comes origin e = rw e (
      probe_loop-Comes (suc (max_hops env config deps)) origin (first_run env config deps origin)
        (first_run-IsReady origin) (omega arith))

  ran-injective : (p q : Probed) → ran p ≡ ran q → p ≡ q
  ran-injective p q e = ground arith

  probe-IsSound :
      (origin : Url) (p : Probed)
      → env.urls.parse config.url ≡ some origin
      → probe env config deps ≡ ran p
      → IsSound origin p
  probe-IsSound origin p e h =
      let (q, k, sound) = probe-Comes origin e in
      subst (IsSound origin) (ran-injective q p (sym k ∙ h)) sound

  -- A probe of a URL that parses ends: it follows no more redirects than the lesser of the
  -- configured number and the cap, sends at most one request more than that, has destroyed every
  -- dispatcher it made, and has recorded the end of its timing.
  pub probe_total :
      (origin : Url)
      → env.urls.parse config.url ≡ some origin
      → (p : Probed) × (probe env config deps ≡ ran p)
        × (p.outcome.redirects ≤ min config.max_redirects deps.max_redirects_cap)
        × (length p.run.sent ≤ suc p.outcome.redirects)
        × (p.run.opened ≡ p.run.destroyed)
        × (has_ended p.run.watch.timing ≡ true)
  probe_total origin e =
      let (p, k, sound) = probe-Comes origin e in
      (
        p,
        k,
        omega (arith, sound.over.bounded, sound.shown),
        omega (arith, sound.over.count, sound.shown),
        sound.over.released,
        sound.ended,
      )

  -- Every request of a probe, on whichever hop, was sent to an address that is not blocked where
  -- the guard is on, carries headers of the configured ones only, and carries none to a URL that
  -- is not of the configured URL's origin; its connector has at least a millisecond.
  pub probe-IsSafe :
      (origin : Url) (p : Probed)
      → env.urls.parse config.url ≡ some origin
      → probe env config deps ≡ ran p
      → All (IsSafe env config deps origin) p.run.sent
  probe-IsSafe origin p e h = (probe-IsSound origin p e h).over.safe

  -- A probe that ran reports a success exactly when it names no failure class, and a success only
  -- where its last request was answered: the status reported is the response's, which the
  -- configuration expects, and the response's body, read under the cap, passes every assertion and
  -- is truncated exactly where the report says so.
  pub probe-IsJudged :
      (origin : Url) (p : Probed)
      → env.urls.parse config.url ≡ some origin
      → probe env config deps ≡ ran p
      → IsJudged env config deps p.run.redirects p.run.sent p.outcome.verdict
  probe-IsJudged origin p e h = (probe-IsSound origin p e h).judged
