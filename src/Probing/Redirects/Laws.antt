-- ===== src/Probing/Redirects/Laws.antt =====
-- What a redirect may change of the request.
use probeboard_api.Common.{
  ℕ, ◌≡◌, refl, ◌≢◌, ◌↔◌, ◌⊎◌, inl, inr, Bool, true, false, not, ◌||◌, [], ◌∷◌, arith, Bool-cases,
  Text, text_eq_iff, upper_unit, to_upper_case,
}
use mathlib.Core.Path.{subst}
use probeboard_api.Probing.Redirects.{
  Headers, is_body_header, get, head, post, method_for_redirect, same_origin, HopHeaderInput,
  without_body_headers, headers_for_hop,
}

upper_unit_idem : (c : ℕ) → upper_unit (upper_unit c) ≡ upper_unit c
upper_unit_idem c = ground arith

pub to_upper_case_idem : (s : Text) → to_upper_case (to_upper_case s) ≡ to_upper_case s
to_upper_case_idem [] = refl
to_upper_case_idem (c ∷ s) = cc (upper_unit_idem c, to_upper_case_idem s)

abbrev pub Rewrites : ℕ → Type 0
Rewrites status = (status ≡ 301) ⊎ (status ≡ 302) ⊎ (status ≡ 303)

-- The next method is the current one in upper case or GET; after 301, 302 or 303 it is never POST,
-- and after 307 and 308 it is never changed; what is sent is in upper case.
pub method_for_redirect_rules :
    (status : ℕ) (method : Text)
    → let next = method_for_redirect status method in
      ((next ≡ to_upper_case method) ⊎ (next ≡ get))
      × (Rewrites status → next ≢ post)
      × ((status ≡ 307) ⊎ (status ≡ 308) → next ≡ to_upper_case method)
      × (to_upper_case next ≡ next)
unfolding method_for_redirect
method_for_redirect_rules status method = ground (
  arith,
  to_upper_case_idem method,
  text_eq_iff (to_upper_case method) get,
  text_eq_iff (to_upper_case method) head,
  text_eq_iff (to_upper_case method) post,
)

-- The entry is one of the list.
abbrev pub Has : Headers → Text × Text → Type 0
Has [] e = ⊥
Has (d ∷ rest) e = (d ≡ e) ⊎ Has rest e

true≢false_at : {b : Bool} → b ≡ true → b ≡ false → ⊥
true≢false_at p q = cc

pub without_body_headers-Has :
    (headers : Headers) (e : Text × Text)
    → Has (without_body_headers headers) e ↔ (Has headers e × (is_body_header e.0 ≡ false))
unfolding without_body_headers
without_body_headers-Has [] e = (λ h. absurd h, λ h. h.0)
without_body_headers-Has ((name, value) ∷ rest) e =
    let (sound, complete) = without_body_headers-Has rest e in
    elim (Bool-cases (is_body_header name)) [
      | inl gone ↦ rw gone (
        λ h. (inr (sound h).0, (sound h).1),
        λ (m, keep). elim m [
          | inl same ↦ absurd (true≢false_at gone (rw (← same) at keep))
          | inr later ↦ complete (later, keep)
        ],
      )
      | inr kept ↦ rw kept (
        λ m. elim m [
          | inl same ↦ (inl same, subst (λ d. is_body_header d.0 ≡ false) same kept)
          | inr later ↦ (inr (sound later).0, (sound later).1)
        ],
        λ (m, keep). elim m [ inl same ↦ inl same | inr later ↦ inr (complete (later, keep)) ],
      )
    ]

-- What a hop sends is no more than what it was given; headers go on only to the original origin;
-- and once dropped they stay dropped.
pub headers_for_hop_rules :
    (input : HopHeaderInput)
    → let hop = headers_for_hop input in
      ((e : Text × Text) → Has hop.headers e → Has input.headers e)
      × ((e : Text × Text) → Has hop.headers e → same_origin input.target input.origin ≡ true)
      × ((hop.dropped ≡ false)
          ↔ ((input.already_dropped ≡ false) × (same_origin input.target input.origin ≡ true)))
      × (input.rewritten_to_get ≡ true
          → (e : Text × Text) → Has hop.headers e
          → is_body_header e.0 ≡ false)
unfolding headers_for_hop
headers_for_hop_rules input =
    elim (Bool-cases (input.already_dropped || not (same_origin input.target input.origin))) [
      | inl drop ↦ rw drop (λ e h. absurd h, λ e h. absurd h, ground arith, λ r e h. absurd h)
      | inr keep ↦ elim (Bool-cases input.rewritten_to_get) [
        | inl get' ↦
            rw (keep, get')
              (
                λ e h. ((without_body_headers-Has input.headers e).0 h).0,
                λ e h. ground arith,
                ground arith,
                λ r e h. ((without_body_headers-Has input.headers e).0 h).1,
              )
        | inr same ↦ rw (keep, same) (λ e h. h, λ e h. ground arith, ground arith, λ r e h. cc)
      ]
    ]
