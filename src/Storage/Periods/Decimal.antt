-- ===== src/Storage/Periods/Decimal.antt =====
-- Texts of digits and the numbers they are of.
use probeboard_api.Common.{
  ℕ, zero, suc, ◌+◌, ◌-◌, ◌/◌, ◌%◌, ◌≤◌, ◌<◌, ◌≡◌, refl, sym, ap, ◌∙◌, inl, inr, Bool, true, false,
  ◌&&◌, [], ◌∷◌, ◌++◌, append_assoc, append-nil, arith, ltb, ltb→lt, lt→ltb, Bool-cases, length,
  take, replicate, length-append, all, Text,
}
use probeboard_api.Storage.Periods.{digits_of, pad_start, pad, number_of, is_decimal, drop}

-- A number in a given number of digits.
abbrev fixed : ℕ → ℕ → Text
fixed zero n = []
fixed (suc w) n = fixed w (n / 10) ++ (48 + n % 10) ∷ []

abbrev zeros : ℕ → Text
zeros w = replicate w 48

zeros_snoc : (w : ℕ) (s : Text) → zeros w ++ 48 ∷ s ≡ 48 ∷ zeros w ++ s
zeros_snoc zero s = refl
zeros_snoc (suc w) s = ap (λ (t : Text). 48 ∷ t) (zeros_snoc w s)

fixed_zero : (w : ℕ) → fixed w 0 ≡ zeros w
fixed_zero zero = refl
fixed_zero (suc w) =
    ap (λ (s : Text). s ++ 48 ∷ []) (fixed_zero w)
    ∙ zeros_snoc w []
    ∙ ap (λ (s : Text). 48 ∷ s) (append-nil (zeros w))

digits_few : (fuel n : ℕ) → ltb n 10 ≡ true → digits_of (suc fuel) n ≡ (48 + n) ∷ []
unfolding digits_of
digits_few fuel n e = rw (digits_of, e) refl

digits_many :
    (fuel n : ℕ)
    → ltb n 10 ≡ false
    → digits_of (suc fuel) n ≡ digits_of fuel (n / 10) ++ (48 + n % 10) ∷ []
unfolding digits_of
digits_many fuel n e = rw (digits_of, e) refl

-- A number has at most one digit more than a given number.
abbrev IsShort : ℕ → ℕ → Type 0
IsShort zero n = n < 10
IsShort (suc w) n = IsShort w (n / 10)

pad_snoc : (w u : ℕ) (s : Text) → pad_start (suc w) (s ++ u ∷ []) ≡ pad_start w s ++ u ∷ []
pad_snoc w u s =
    let left : suc w - length (s ++ u ∷ []) ≡ w - length s =
      omega (arith, length-append s (u ∷ [])) in
    ap (λ n. zeros n ++ (s ++ u ∷ [])) left ∙ sym (append_assoc (zeros (w - length s)) s (u ∷ []))

pad_one : (w n : ℕ) → n < 10 → pad_start (suc w) ((48 + n) ∷ []) ≡ fixed (suc w) n
pad_one w n s =
    let high : n / 10 ≡ 0 = omega arith in
    let low : n % 10 ≡ n = omega arith in
    let left : suc w - 1 ≡ w = omega arith in rw (left, high, low, fixed_zero w) refl

pad_start-fixed :
    (w fuel n : ℕ)
    → IsShort w n
    → w ≤ fuel
    → pad_start (suc w) (digits_of (suc fuel) n) ≡ fixed (suc w) n
pad_start-fixed zero fuel n s f =
    ap (pad_start 1) (digits_few fuel n (lt→ltb n 10 s)) ∙ pad_one 0 n s
pad_start-fixed (suc w) zero n s f = absurd (omega (arith, f))
pad_start-fixed (suc w) (suc fuel) n s f = elim (Bool-cases (ltb n 10)) [
  | inl few ↦
      ap (pad_start (suc (suc w))) (digits_few (suc fuel) n few)
      ∙ pad_one (suc w) n (ltb→lt n 10 few)
  | inr many ↦
      ap (pad_start (suc (suc w))) (digits_many (suc fuel) n many)
      ∙ pad_snoc (suc w) (48 + n % 10) (digits_of (suc fuel) (n / 10))
      ∙ ap (λ (t : Text). t ++ (48 + n % 10) ∷ [])
          (pad_start-fixed w fuel (n / 10) s (omega (arith, f)))
]

pad-fixed : (w n : ℕ) → IsShort w n → w ≤ 19 → pad n (suc w) ≡ fixed (suc w) n
unfolding pad
pad-fixed w n s f = pad_start-fixed w 19 n s f

same_two : {a b a' b' : ℕ} → a ≡ a' → b ≡ b' → a ∷ b ∷ [] ≡ a' ∷ b' ∷ []
same_two p q = rw (p, q) refl

same_four :
    {a b c d a' b' c' d' : ℕ}
    → a ≡ a'
    → b ≡ b'
    → c ≡ c'
    → d ≡ d'
    → a ∷ b ∷ c ∷ d ∷ [] ≡ a' ∷ b' ∷ c' ∷ d' ∷ []
same_four p q r s = rw (p, q, r, s) refl

four_digits :
    (a b c d : ℕ)
    → is_decimal a && is_decimal b && is_decimal c && is_decimal d ≡ true
    → pad (number_of 0 (a ∷ b ∷ c ∷ d ∷ [])) 4 ≡ a ∷ b ∷ c ∷ d ∷ []
four_digits a b c d e =
    let n : ℕ = number_of 0 (a ∷ b ∷ c ∷ d ∷ []) in
    let (la, ha, lb, hb, (lc, hc, ld, hd)) : (48 ≤ a)
        × (a ≤ 57)
        × (48 ≤ b)
        × (b ≤ 57)
        × ((48 ≤ c) × (c ≤ 57) × (48 ≤ d) × (d ≤ 57)) =
      ground (arith, e) in
    pad-fixed 3 n (omega arith) (omega arith)
    ∙ same_four (omega arith) (omega arith) (omega arith) (omega arith)

two_digits :
    (a b : ℕ) → is_decimal a && is_decimal b ≡ true → pad (number_of 0 (a ∷ b ∷ [])) 2 ≡ a ∷ b ∷ []
two_digits a b e =
    let (la, ha, lb, hb) : (48 ≤ a) × (a ≤ 57) × (48 ≤ b) × (b ≤ 57) = ground (arith, e) in
    pad-fixed 1 (number_of 0 (a ∷ b ∷ [])) (omega arith) (omega arith)
    ∙ same_two (omega arith) (omega arith)

uncons : (n : ℕ) (s : Text) → length s ≡ suc n → (a : ℕ) × (t : Text) × (s ≡ a ∷ t) × (length t ≡ n)
uncons n [] e = absurd (omega (arith, e))
uncons n (a ∷ t) e = (a, t, refl, omega (arith, e))

nil_of : (s : Text) → length s ≡ 0 → s ≡ []
nil_of [] e = refl
nil_of (a ∷ t) e = absurd (omega (arith, e))

two_of : (s : Text) → length s ≡ 2 → (a b : ℕ) × (s ≡ a ∷ b ∷ [])
two_of s e =
    let (a, t, p, f) = uncons 1 s e in
    let (b, u, q, g) = uncons 0 t f in
    (a, b, p ∙ ap (λ (r : Text). a ∷ r) (q ∙ ap (λ (r : Text). b ∷ r) (nil_of u g)))

pub pad_two : (s : Text) → length s ≡ 2 → all is_decimal s ≡ true → pad (number_of 0 s) 2 ≡ s
pad_two s e k =
    let (a, b, p) = two_of s e in
    let digits : all is_decimal (a ∷ b ∷ []) ≡ true = ap (all is_decimal) (sym p) ∙ k in
    rw p (two_digits a b (ground (arith, digits)))

pub pad_four : (s : Text) → length s ≡ 4 → all is_decimal s ≡ true → pad (number_of 0 s) 4 ≡ s
pad_four s e k =
    let (a, t, p, f) = uncons 3 s e in
    let (b, u, q, g) = uncons 2 t f in
    let (c, d, r) = two_of u g in
    let whole : s ≡ a ∷ b ∷ c ∷ d ∷ [] =
      p ∙ ap (λ (v : Text). a ∷ v) (q ∙ ap (λ (v : Text). b ∷ v) r) in
    let digits : all is_decimal (a ∷ b ∷ c ∷ d ∷ []) ≡ true = ap (all is_decimal) (sym whole) ∙ k in
    rw whole (four_digits a b c d (ground (arith, digits)))

pub take-drop : (n : ℕ) (s : Text) → take n s ++ drop n s ≡ s
take-drop zero s = refl
take-drop (suc n) [] = refl
take-drop (suc n) (a ∷ s) = ap (λ (t : Text). a ∷ t) (take-drop n s)

pub drop_six : (s : Text) → drop 2 (drop 4 s) ≡ drop 6 s
drop_six [] = refl
drop_six (a ∷ []) = refl
drop_six (a ∷ b ∷ []) = refl
drop_six (a ∷ b ∷ c ∷ []) = refl
drop_six (a ∷ b ∷ c ∷ d ∷ s) = refl

pub length-drop : (n : ℕ) (s : Text) → length (drop n s) ≡ length s - n
length-drop zero s = omega arith
length-drop (suc n) [] = omega arith
length-drop (suc n) (a ∷ s) = omega (arith, length-drop n s)

pub all-take : (p : ℕ → Bool) (n : ℕ) (s : Text) → all p s ≡ true → all p (take n s) ≡ true
all-take p zero s e = refl
all-take p (suc n) [] e = refl
all-take p (suc n) (a ∷ s) e = ground (arith, e, all-take p n s)

pub all-drop : (p : ℕ → Bool) (n : ℕ) (s : Text) → all p s ≡ true → all p (drop n s) ≡ true
all-drop p zero s e = e
all-drop p (suc n) [] e = refl
all-drop p (suc n) (a ∷ s) e = all-drop p n s (ground (arith, e))
