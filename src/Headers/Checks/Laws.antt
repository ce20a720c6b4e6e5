-- ===== src/Headers/Checks/Laws.antt =====
-- What a header list that is saved is.
use probeboard_api.Common.{
  ℕ, ◌≤◌, ◌<◌, ◌≡◌, refl, ◌≢◌, ◌↔◌, inl, inr, Bool, true, false, not, Option, none, some, List, [],
  ◌∷◌, arith, ltb, if◌then◌else◌, ltb→lt, lt→ltb, Bool-cases, length, all, All, Text, has,
  to_lower_case,
}
use probeboard_api.Headers.Rows.{HeaderInput}
use probeboard_api.Headers.Checks.{
  HeaderLimits, HeaderError, header_not_allowed, duplicate_name, bad_name, long_name,
  forbidden_header_names, is_token_unit, is_value_unit, is_header_name, is_header_value,
  byte_length, check_value, check_header, check_headers, validate, or_next,
}

abbrev pub IsToken : Text → Type 0
IsToken name = (name ≢ []) × All (λ u. is_token_unit u ≡ true) name

abbrev pub IsFieldValue : HeaderLimits → Option Text → Type 0
IsFieldValue limits none = Unit
IsFieldValue limits (some value) =
    All (λ u. is_value_unit u ≡ true) value × (byte_length value ≤ limits.max_header_value_bytes)

-- The units of a token are one byte each.
abbrev pub IsSendable : HeaderLimits → HeaderInput → Type 0
IsSendable limits header =
    (has forbidden_header_names (to_lower_case header.name) ≡ false)
    × IsToken header.name
    × (length header.name ≤ limits.max_header_name_bytes)
    × IsFieldValue limits header.value

abbrev pub AreDistinct : List Text → List HeaderInput → Type 0
AreDistinct seen [] = Unit
AreDistinct seen (header ∷ headers) =
    (has seen (to_lower_case header.name) ≡ false)
    × AreDistinct (to_lower_case header.name ∷ seen) headers

name_unit_ascii : (u : ℕ) → is_token_unit u ≡ true → u < 128
name_unit_ascii u e = ground arith

byte_length-length :
    (name : Text) → All (λ u. is_token_unit u ≡ true) name → byte_length name ≡ length name
unfolding byte_length
byte_length-length [] a = refl
byte_length-length (u ∷ units) (e, a) =
    let small = lt→ltb u 128 (name_unit_ascii u e) in
    rw (small, byte_length-length units a) (omega arith)

all_iff : (p : ℕ → Bool) (units : Text) → (all p units ≡ true) ↔ All (λ u. p u ≡ true) units
all_iff p [] = (λ e. tt, λ a. refl)
all_iff p (u ∷ units) = ground (arith, all_iff p units)

is_header_name_iff : (name : Text) → (is_header_name name ≡ true) ↔ IsToken name
unfolding is_header_name
is_header_name_iff [] = (λ e. cc, λ (some_unit, a). absurd (some_unit refl))
is_header_name_iff (u ∷ units) = (
  λ e. (λ same. cc, (all_iff is_token_unit (u ∷ units)).0 e),
  λ (some_unit, a). (all_iff is_token_unit (u ∷ units)).1 a,
)

-- What the tests of one header come to, in the order they stand.
abbrev IsPassing : (forbidden dup token : Bool) (limit bytes : ℕ) → Option HeaderError → Type 0
IsPassing forbidden dup token limit bytes rest =
    (forbidden ≡ false) × (dup ≡ false) × (token ≡ true) × (bytes ≤ limit) × (rest ≡ none)

chain_iff :
    (a b c d : HeaderError) (forbidden dup token : Bool) (limit bytes : ℕ)
    (rest : Option HeaderError)
    → ((if forbidden
          then some a
          else if dup
          then some b
          else if not token
          then some c
          else if ltb limit bytes
          then some d
          else rest)
        ≡ none)
      ↔ IsPassing forbidden dup token limit bytes rest
chain_iff a b c d forbidden dup token limit bytes rest = ground arith

check_value_iff :
    (limits : HeaderLimits) (name : Text) (value : Option Text)
    → (check_value limits name value ≡ none) ↔ IsFieldValue limits value
unfolding check_value is_header_value
check_value_iff limits name none = (λ e. tt, λ i. refl)
check_value_iff limits name (some value) = let k = all_iff is_value_unit value in ground (arith, k)

check_header_iff :
    (limits : HeaderLimits) (seen : List Text) (header : HeaderInput)
    → (check_header limits seen header ≡ none)
      ↔ (IsSendable limits header × (has seen (to_lower_case header.name) ≡ false))
unfolding check_header
check_header_iff limits seen header =
    let (forth, back) =
      chain_iff (header_not_allowed header.name) (duplicate_name header.name) (bad_name header.name)
        (long_name header.name) (has forbidden_header_names (to_lower_case header.name))
        (has seen (to_lower_case header.name)) (is_header_name header.name)
        limits.max_header_name_bytes (byte_length header.name)
        (check_value limits header.name header.value) in
    let token = is_header_name_iff header.name in
    let held = check_value_iff limits header.name header.value in
    (
      λ e.
          let (f, d, t, l, r) = forth e in
          let (unit, chars) = token.0 t in
          ((f, (unit, chars), rw (← byte_length-length header.name chars) l, held.0 r), d),
      λ ((f, (unit, chars), l, v), d).
          back (f, d, token.1 (unit, chars), rw (byte_length-length header.name chars) l, held.1 v),
    )

or_next_iff : (a b : Option HeaderError) → (or_next a b ≡ none) ↔ ((a ≡ none) × (b ≡ none))
or_next_iff none b = (λ e. (refl, e), λ (e, f). f)
or_next_iff (some e) b = (λ e. cc, λ (e, f). cc)

check_headers_iff :
    (limits : HeaderLimits) (seen : List Text) (headers : List HeaderInput)
    → (check_headers limits seen headers ≡ none)
      ↔ (All (IsSendable limits) headers × AreDistinct seen headers)
unfolding check_headers
check_headers_iff limits seen [] = (λ e. (tt, tt), λ i. refl)
check_headers_iff limits seen (header ∷ headers) =
    let here = check_header_iff limits seen header in
    let there = check_headers_iff limits (to_lower_case header.name ∷ seen) headers in
    let both =
      or_next_iff (check_header limits seen header)
        (check_headers limits (to_lower_case header.name ∷ seen) headers) in
    (
      λ e.
          let (e0, e1) = both.0 e in
          let (s, d) = here.0 e0 in let (ss, ds) = there.0 e1 in ((s, ss), (d, ds)),
      λ ((s, ss), (d, ds)). both.1 (here.1 (s, d), there.1 (ss, ds)),
    )

-- Validation throws nothing exactly where there are no more headers than the limit, each can be sent
-- (a token within the length limit and not a forbidden name, and a value, if it has one, of units
-- that a field may have and within the byte limit), and no two names are the same but for case.
pub validate_iff :
    (limits : HeaderLimits) (headers : List HeaderInput)
    → (validate limits headers ≡ none) ↔ (
        (length headers ≤ limits.max_headers_per_owner)
        × All (IsSendable limits) headers
        × AreDistinct [] headers)
unfolding validate
validate_iff limits headers =
    let each = check_headers_iff limits [] headers in
    elim (Bool-cases (ltb limits.max_headers_per_owner (length headers))) [
      | inl over ↦ rw over (
        λ e. cc,
        λ (l, s, d). absurd (clash (ltb→lt limits.max_headers_per_owner (length headers) over) l),
      )
      | inr under ↦
          rw under
            (λ e. let (s, d) = each.0 e in (few_enough under, s, d), λ (l, s, d). each.1 (s, d))
    ]
  where
    clash : {m n : ℕ} → m < n → n ≤ m → ⊥
    clash h k = omega arith

    few_enough :
        ltb limits.max_headers_per_owner (length headers) ≡ false
        → length headers ≤ limits.max_headers_per_owner
    few_enough e = ground (arith, e)
