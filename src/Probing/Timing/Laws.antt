-- ===== src/Probing/Timing/Laws.antt =====
-- The duration of a probe is fixed by the first terminal boundary.
use probeboard_api.Common.{ℕ, ◌≡◌, refl, ◌∙◌, true, false, some, List, [], ◌∷◌, arith, sub_ℕ}
use probeboard_api.Probing.Timing.{
  HopBoundary, TerminalBoundary, Timing, mark, mark_same, reset_hop, mark_terminal, derived,
  has_ended,
}

-- What a probe does with its timing, with the reading of the clock.
pub data Event : Type 0 where
  marked : HopBoundary → ℕ → Event
  marked_same : List HopBoundary → ℕ → Event
  reset : Event
  ended : TerminalBoundary → ℕ → Event

pub apply : Event → Timing → Timing
apply (marked b now) t = mark b now t
apply (marked_same bs now) t = mark_same bs now t
apply reset t = reset_hop t
apply (ended b now) t = mark_terminal b now t

unfoldable pub replay : List Event → Timing → Timing
unfolding apply
replay [] t = t
replay (e ∷ events) t = replay events (apply e t)

apply-keeps :
    (e : Event) (t : Timing) (end : ℕ)
    → t.end_at ≡ some end
    → ((apply e t).end_at ≡ some end) × ((apply e t).probe_start ≡ t.probe_start)
unfolding apply mark mark_same reset_hop
apply-keeps (marked b now) t end h = (h, refl)
apply-keeps (marked_same bs now) t end h = (h, refl)
apply-keeps reset t end h = (h, refl)
apply-keeps (ended b now) t end h =
    let same : mark_terminal b now t ≡ t = unfold mark_terminal in ground arith in rw same (h, refl)

replay-keeps :
    (events : List Event) (t : Timing) (end : ℕ)
    → t.end_at ≡ some end
    → ((replay events t).end_at ≡ some end) × ((replay events t).probe_start ≡ t.probe_start)
unfolding replay
replay-keeps [] t end h = (h, refl)
replay-keeps (e ∷ events) t end h =
    let (kept, start) = apply-keeps e t end h in
    let (last, same) = replay-keeps events (apply e t) end kept in (last, same ∙ start)

-- Once a terminal boundary is marked on a timing that has not ended, whatever is marked, reset or
-- ended later leaves the total duration what it was at that instant, and the timing stays ended.
pub replay-total_ms :
    (events : List Event) (boundary : TerminalBoundary) (at now : ℕ) (t : Timing)
    → has_ended t ≡ false
    → let later = replay events (mark_terminal boundary at t) in
      ((derived now later).total_ms ≡ sub_ℕ at t.probe_start) × (has_ended later ≡ true)
unfolding derived has_ended
replay-total_ms events boundary at now t h =
    let first : ((mark_terminal boundary at t).end_at ≡ some at)
        × ((mark_terminal boundary at t).probe_start ≡ t.probe_start) =
      unfold mark_terminal in rw h (refl, refl) in
    let (last, start) = replay-keeps events (mark_terminal boundary at t) at first.0 in
    rw (last, start, first.1) (refl, refl)
