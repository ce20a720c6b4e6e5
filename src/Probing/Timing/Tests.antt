-- ===== src/Probing/Timing/Tests.antt =====
-- A timing that is ended twice.
use probeboard_api.Common.{◌≡◌, refl, true, false, List, [], ◌∷◌, sub_ℕ}
use probeboard_api.Probing.Timing.{
  Timing, first_byte, transferred, failed_at, create_timing, mark_terminal, derived, has_ended,
}
use probeboard_api.Probing.Timing.Laws.{Event, marked, reset, ended, replay, replay-total_ms}

abbrev started : Timing
started = create_timing 100 5000

abbrev events : List Event
events = marked first_byte 130 ∷ reset ∷ ended failed_at 190 ∷ []

not_ended : has_ended started ≡ false
unfolding has_ended create_timing
not_ended = refl

replay-total_ms_example :
    let later = replay events (mark_terminal transferred 150 started) in
    ((derived 200 later).total_ms ≡ sub_ℕ 150 started.probe_start) × (has_ended later ≡ true)
replay-total_ms_example = replay-total_ms events transferred 150 200 started not_ended
