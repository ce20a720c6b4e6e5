-- ===== src/Ssrf/Ranges.antt =====
-- The IPv4 addresses that are blocked, as intervals.
use probeboard_api.Common.{
  ℕ, ◌^◌, ◌<◌, ◌≡◌, refl, sym, ap, ◌∙◌, ◌≢◌, inl, inr, Bool, true, false, ◌&&◌, ◌||◌,
  and-eq-true_iff, List, [], ◌∷◌, ◌++◌, arith, leb, ◌==◌, Bool-cases, all, any,
}
use mathlib.Core.Bool.{or-false}
use probeboard_api.Ssrf.BlockList.{
  Address, ipv4, Rule, v4, check, rule_matches, block_list4, block_list6, block_list,
  global_exceptions, is_blocked_address,
}

abbrev pub Interval : Type 0
Interval = ℕ × ℕ

abbrev pub inside : ℕ → Interval → Bool
inside x (lo, hi) = leb lo x && leb x hi

abbrev intervals_before : List Interval
intervals_before =
    (v4 127 0 0 0, v4 127 255 255 255)
    ∷ (v4 10 0 0 0, v4 10 255 255 255)
    ∷ (v4 172 16 0 0, v4 172 31 255 255)
    ∷ (v4 192 168 0 0, v4 192 168 255 255)
    ∷ (v4 169 254 0 0, v4 169 254 255 255)
    ∷ (v4 100 64 0 0, v4 100 127 255 255)
    ∷ (v4 198 18 0 0, v4 198 19 255 255)
    ∷ (v4 224 0 0 0, v4 239 255 255 255)
    ∷ (v4 240 0 0 0, v4 255 255 255 255)
    ∷ (v4 0 0 0 0, v4 0 255 255 255)
    ∷ (v4 100 100 100 200, v4 100 100 100 200)
    ∷ []

abbrev intervals_after : List Interval
intervals_after =
    (v4 192 0 2 0, v4 192 0 2 255)
    ∷ (v4 198 51 100 0, v4 198 51 100 255)
    ∷ (v4 203 0 113 0, v4 203 0 113 255)
    ∷ (v4 192 88 99 0, v4 192 88 99 255)
    ∷ []

-- The intervals of the block list's IPv4 rules, in their order.
abbrev intervals : List Interval
intervals = intervals_before ++ (v4 192 0 0 0, v4 192 0 0 255) ∷ intervals_after

-- No IPv6 rule holds of an IPv4 address.
check6 : (x : ℕ) → x < 2 ^ 32 → check block_list6 (ipv4 x) ≡ false
unfolding check block_list6
check6 x h = ground arith

-- Rule by rule, a list of rules holds the same IPv4 address as a list of intervals.
abbrev Agree : List Rule → List Interval → ℕ → Type 0
Agree [] [] x = Unit
Agree (r ∷ rules) (i ∷ is) x = (rule_matches r (ipv4 x) ≡ inside x i) × Agree rules is x
Agree [] (_ ∷ _) x = ⊥
Agree (_ ∷ _) [] x = ⊥

block_list4-Agree : (x : ℕ) → Agree block_list4 intervals x
unfolding block_list4 rule_matches
block_list4-Agree x = ground arith

check_of_Agree :
    (rules : List Rule) (is : List Interval) (x : ℕ)
    → Agree rules is x
    → check rules (ipv4 x) ≡ any (inside x) is
unfolding check
check_of_Agree [] [] x h = refl
check_of_Agree [] (_ ∷ _) x h = absurd h
check_of_Agree (_ ∷ _) [] x h = absurd h
check_of_Agree (r ∷ rules) (i ∷ is) x (here, later) = rw (here, check_of_Agree rules is x later)

check-append :
    (rules more : List Rule) (a : Address)
    → check (rules ++ more) a ≡ (check rules a || check more a)
unfolding check
check-append [] more a = refl
check-append (r ∷ rules) more a = ground (arith, check-append rules more a)

check-block_list : (x : ℕ) → x < 2 ^ 32 → check block_list (ipv4 x) ≡ any (inside x) intervals
unfolding block_list
check-block_list x h =
    check-append block_list4 block_list6 (ipv4 x)
    ∙ rw (check6 x h, or-false) (check_of_Agree block_list4 intervals x (block_list4-Agree x))

check_exceptions :
    (x : ℕ)
    → x < 2 ^ 32
    → check global_exceptions (ipv4 x) ≡ ((x == v4 192 0 0 9) || (x == v4 192 0 0 10))
unfolding check global_exceptions
check_exceptions x h = ground arith

-- The IPv4 space that is not globally reachable, in ascending order and with no overlap.
abbrev pub reserved : List Interval
reserved =
    (v4 0 0 0 0, v4 0 255 255 255)
    ∷ (v4 10 0 0 0, v4 10 255 255 255)
    ∷ (v4 100 64 0 0, v4 100 127 255 255)
    ∷ (v4 127 0 0 0, v4 127 255 255 255)
    ∷ (v4 169 254 0 0, v4 169 254 255 255)
    ∷ (v4 172 16 0 0, v4 172 31 255 255)
    ∷ (v4 192 0 0 0, v4 192 0 0 8)
    ∷ (v4 192 0 0 11, v4 192 0 0 255)
    ∷ (v4 192 0 2 0, v4 192 0 2 255)
    ∷ (v4 192 88 99 0, v4 192 88 99 255)
    ∷ (v4 192 168 0 0, v4 192 168 255 255)
    ∷ (v4 198 18 0 0, v4 198 19 255 255)
    ∷ (v4 198 51 100 0, v4 198 51 100 255)
    ∷ (v4 203 0 113 0, v4 203 0 113 255)
    ∷ (v4 224 0 0 0, v4 239 255 255 255)
    ∷ (v4 240 0 0 0, v4 255 255 255 255)
    ∷ []

-- An interval that lies within one of a list.
included : List Interval → Interval → Bool
included [] i = false
included ((lo, hi) ∷ is) i = (leb lo i.0 && leb i.1 hi) || included is i

inside_of_included :
    (x : ℕ) (is : List Interval) (i : Interval)
    → included is i ≡ true
    → inside x i ≡ true
    → any (inside x) is ≡ true
unfolding included
inside_of_included x [] i e h = cc
inside_of_included x ((lo, hi) ∷ is) (a, b) e h = ground (arith, inside_of_included x is (a, b))

any_of_included :
    (x : ℕ) (js is : List Interval)
    → all (included is) js ≡ true
    → any (inside x) js ≡ true
    → any (inside x) is ≡ true
any_of_included x [] is e h = cc
any_of_included x (j ∷ js) is e h =
    let (here, later) = (and-eq-true_iff (included is j) (all (included is) js)).0 e in
    elim (Bool-cases (inside x j)) [
      | inl now ↦ inside_of_included x is j here now
      | inr other ↦ any_of_included x js is later (rw other at h)
    ]

eq_of_both : (a b : Bool) → (a ≡ true → b ≡ true) → (b ≡ true → a ≡ true) → a ≡ b
eq_of_both true b f g = sym (f refl)
eq_of_both false true f g = g refl
eq_of_both false false f g = refl

-- The block list's intervals with the two exceptions taken out of 192.0.0.0/24.
abbrev pierced : List Interval
pierced =
    intervals_before
    ++ (v4 192 0 0 0, v4 192 0 0 8) ∷ (v4 192 0 0 11, v4 192 0 0 255) ∷ intervals_after

any-append :
    (x : ℕ) (is js : List Interval)
    → any (inside x) (is ++ js) ≡ (any (inside x) is || any (inside x) js)
any-append x [] js = refl
any-append x (i ∷ is) js = ground (arith, any-append x is js)

any-split :
    (x : ℕ) (is : List Interval)
    → x ≢ v4 192 0 0 9
    → x ≢ v4 192 0 0 10
    → any (inside x) ((v4 192 0 0 0, v4 192 0 0 255) ∷ is)
      ≡ any (inside x) ((v4 192 0 0 0, v4 192 0 0 8) ∷ (v4 192 0 0 11, v4 192 0 0 255) ∷ is)
any-split x is p q = ground arith

any-pierced :
    (x : ℕ)
    → x ≢ v4 192 0 0 9
    → x ≢ v4 192 0 0 10
    → any (inside x) intervals ≡ any (inside x) pierced
any-pierced x p q =
    let whole = (v4 192 0 0 0, v4 192 0 0 255) ∷ intervals_after in
    let parts = (v4 192 0 0 0, v4 192 0 0 8) ∷ (v4 192 0 0 11, v4 192 0 0 255) ∷ intervals_after in
    any-append x intervals_before whole
    ∙ ap (λ b. any (inside x) intervals_before || b) (any-split x intervals_after p q)
    ∙ sym (any-append x intervals_before parts)

any-reserved : (x : ℕ) → any (inside x) pierced ≡ any (inside x) reserved
unfolding included
any-reserved x =
    eq_of_both _ _ (any_of_included x pierced reserved refl)
      (any_of_included x reserved pierced refl)

-- An IPv4 address is blocked exactly when it lies in one of the reserved intervals, the two
-- globally reachable addresses inside 192.0.0.0/24 left out.
pub is_blocked_address-eq-reserved :
    (x : ℕ) → x < 2 ^ 32 → is_blocked_address (ipv4 x) ≡ any (inside x) reserved
unfolding is_blocked_address
is_blocked_address-eq-reserved x h =
    elim (Bool-cases ((x == v4 192 0 0 9) || (x == v4 192 0 0 10))) [
      | inl open' ↦
          rw (check_exceptions x h, open')
            (elim (Bool-cases (x == v4 192 0 0 9)) [
              | inl nine ↦ let e : x ≡ v4 192 0 0 9 = ground arith in rw e
              | inr ten ↦ let e : x ≡ v4 192 0 0 10 = ground arith in rw e
            ])
      | inr shut ↦
          rw (check_exceptions x h, shut)
            (check-block_list x h ∙ any-pierced x (ground arith) (ground arith) ∙ any-reserved x)
    ]
