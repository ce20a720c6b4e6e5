-- ===== src/Probing/Timing.antt =====
-- worker/probing/utils/timing.ts: the boundaries of a probe. A reading of the monotonic clock is a
-- number of its ticks, given to each operation that reads it.
pub mod Laws
mod Tests
use probeboard_api.Common.{
  ℕ, zero, suc, min, max, refl, sym, ap, inl, inr, Bool, true, false, not, and-eq-true_iff, Option,
  none, some, List, [], ◌∷◌, map, append_assoc, append-nil, arith, ltb, leb, if◌then◌else◌, ltb→lt,
  lt→ltb, leb→le, ==_iff, tests, Bool-cases, Option-cases, length, get_elem?, get_or, take,
  replicate, length-append, length-take, all, any, find, All, All-append, ℤ, pos, negsuc, sub_ℕ,
  Text, codes, text_eq, text_eq_iff, starts_with, includes, has, lower_unit, upper_unit,
  to_lower_case, to_upper_case,
}
use probeboard_api.Probing.FailureClasses.{Boundaries}

pub data HopBoundary : Type 0 where
  dns_start dns_done connect_start connect_done : HopBoundary
  tls_start tls_done first_byte transfer_done : HopBoundary

pub data TerminalBoundary : Type 0 where
  transferred blocked_at failed_at : TerminalBoundary

pub record DerivedPhases : Type 0 where
  pub dns_ms : Option ℤ
  pub connect_ms : Option ℤ
  pub tls_ms : Option ℤ
  pub ttfb_ms : Option ℤ
  pub transfer_ms : Option ℤ
  pub total_ms : ℤ

pub record Timing : Type 0 where
  pub started_at : ℕ
  pub probe_start : ℕ
  pub boundaries : Boundaries
  pub end_at : Option ℕ

abbrev pub no_boundaries : Boundaries
no_boundaries = record {
  dns_start = none;
  dns_done = none;
  connect_start = none;
  connect_done = none;
  tls_start = none;
  tls_done = none;
  first_byte = none;
  transfer_done = none;
}

unfoldable pub create_timing : (monotonic wall_clock : ℕ) → Timing
create_timing monotonic wall_clock = record {
  started_at = wall_clock;
  probe_start = monotonic;
  boundaries = no_boundaries;
  end_at = none;
}

abbrev pub set_boundary : HopBoundary → ℕ → Boundaries → Boundaries
set_boundary dns_start at b = record b { dns_start = some at }
set_boundary dns_done at b = record b { dns_done = some at }
set_boundary connect_start at b = record b { connect_start = some at }
set_boundary connect_done at b = record b { connect_done = some at }
set_boundary tls_start at b = record b { tls_start = some at }
set_boundary tls_done at b = record b { tls_done = some at }
set_boundary first_byte at b = record b { first_byte = some at }
set_boundary transfer_done at b = record b { transfer_done = some at }

unfoldable pub mark : HopBoundary → ℕ → Timing → Timing
mark boundary now t = record t { boundaries = set_boundary boundary now t.boundaries }

set_all : List HopBoundary → ℕ → Boundaries → Boundaries
set_all [] at b = b
set_all (boundary ∷ marked) at b = set_all marked at (set_boundary boundary at b)

unfoldable pub mark_same : List HopBoundary → ℕ → Timing → Timing
unfolding set_all
mark_same marked now t = record t { boundaries = set_all marked now t.boundaries }

unfoldable pub reset_hop : Timing → Timing
reset_hop t = record t { boundaries = no_boundaries }

abbrev pub is_some {ℓ} : {A : Type ℓ} → Option A → Bool
is_some none = false
is_some (some a) = true

unfoldable pub has_ended : Timing → Bool
has_ended t = is_some t.end_at

abbrev pub end_boundaries : TerminalBoundary → ℕ → Boundaries → Boundaries
end_boundaries transferred at b = record b { transfer_done = some at }
end_boundaries blocked_at at b = b
end_boundaries failed_at at b = b

unfoldable pub mark_terminal : TerminalBoundary → ℕ → Timing → Timing
mark_terminal boundary now t =
    if is_some t.end_at
    then t
    else record t { end_at = some now; boundaries = end_boundaries boundary now t.boundaries }

-- `sub`: absent where an end is absent.
abbrev pub sub : Option ℕ → Option ℕ → Option ℤ
sub none to = none
sub (some from) none = none
sub (some from) (some to) = some (sub_ℕ to from)

-- `a ?? b`.
abbrev pub else_use : Option ℕ → Option ℕ → Option ℕ
else_use (some a) b = some a
else_use none b = b

abbrev pub or_now : Option ℕ → ℕ → ℕ
or_now (some at) now = at
or_now none now = now

unfoldable pub derived : ℕ → Timing → DerivedPhases
derived now t = record {
  dns_ms = sub b.dns_start b.dns_done;
  connect_ms = sub b.connect_start b.connect_done;
  tls_ms = sub b.tls_start b.tls_done;
  ttfb_ms = sub (else_use b.tls_done b.connect_done) b.first_byte;
  transfer_ms = sub b.first_byte b.transfer_done;
  total_ms = sub_ℕ (or_now t.end_at now) t.probe_start;
}
  where
    open t use {boundaries as b}
