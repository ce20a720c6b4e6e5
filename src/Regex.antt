-- ===== src/Regex.antt =====
-- Regular expressions over code units, for the `RegExp` tests of the source, all of which are
-- anchored: a test is a match of the whole text, computed by derivatives.
pub mod Laws
use probeboard_api.Common.{
  ℕ, zero, suc, min, max, refl, sym, ap, inl, inr, Bool, true, false, not, ◌&&◌, ◌||◌,
  and-eq-true_iff, Option, none, some, List, [], ◌∷◌, map, append_assoc, append-nil, arith, ltb,
  leb, ◌==◌, if◌then◌else◌, ltb→lt, lt→ltb, leb→le, ==_iff, tests, Bool-cases, Option-cases, length,
  get_elem?, get_or, take, replicate, length-append, length-take, all, any, find, All, All-append,
  Text, codes, text_eq, text_eq_iff, starts_with, includes, has, lower_unit, upper_unit,
  to_lower_case, to_upper_case,
}

pub data Regex : Type 0 where
  nothing empty : Regex
  unit : (ℕ → Bool) → Regex
  seq alt : Regex → Regex → Regex
  star : Regex → Regex

unfoldable pub accepts_empty : Regex → Bool
accepts_empty nothing = false
accepts_empty empty = true
accepts_empty (unit p) = false
accepts_empty (seq r q) = accepts_empty r && accepts_empty q
accepts_empty (alt r q) = accepts_empty r || accepts_empty q
accepts_empty (star r) = true

-- What must follow a first unit.
unfoldable pub derive : ℕ → Regex → Regex
unfolding accepts_empty
derive c nothing = nothing
derive c empty = nothing
derive c (unit p) = if p c then empty else nothing
derive c (seq r q) =
    let first = seq (derive c r) q in if accepts_empty r then alt first (derive c q) else first
derive c (alt r q) = alt (derive c r) (derive c q)
derive c (star r) = seq (derive c r) (star r)

unfoldable pub matches : Regex → Text → Bool
unfolding accepts_empty derive
matches r [] = accepts_empty r
matches r (c ∷ s) = matches (derive c r) s

abbrev pub literal : ℕ → Regex
literal c = unit (λ d. d == c)

abbrev pub plus : Regex → Regex
plus r = seq r (star r)
