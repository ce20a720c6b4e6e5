-- ===== src/Scheduling/Loader/Sent.antt =====
-- The headers that a load sends of its rows.
use probeboard_api.Common.{
  ◌≡◌, refl, sym, ap, ◌∙◌, inl, inr, true, false, Option, none, some, List, [], ◌∷◌, arith,
  if◌then◌else◌, Bool-cases, All, Text, codes, text_eq, text_eq_iff, to_lower_case,
}
use probeboard_api.Probing.BodyCap.{Bytes}
use probeboard_api.Probing.Redirects.{Headers}
use probeboard_api.Headers.Cipher.{GcmCipher}
use probeboard_api.Headers.Rows.{Header, sent_value, ◌>>=◌}
use probeboard_api.Headers.Rows.Merge.{HasDistinctNames, effective, lower_name, if_named}
use probeboard_api.Probing.FailureClasses.{or_else}
use probeboard_api.Scheduling.Loader.{put, sent_headers}

-- What is sent under a name, as it is spelled.
abbrev pub get_exact : Text → Headers → Option Text
get_exact name [] = none
get_exact name ((k, v) ∷ headers) =
    let rest = get_exact name headers in if text_eq k name then some v else rest

abbrev pub proto : Text
proto = codes "__proto__"

text_eq-false : (s t : Text) → (s ≡ t → ⊥) → text_eq s t ≡ false
text_eq-false s t h = elim (Bool-cases (text_eq s t)) [
  | inl e ↦ absurd (h ((text_eq_iff s t).0 e))
  | inr e ↦ e
]

put-other :
    (name other value : Text) (headers : Headers)
    → text_eq name other ≡ false
    → get_exact other (put name value headers) ≡ get_exact other headers
put-other name other value [] h = elim (Bool-cases (text_eq name proto)) [
  | inl e ↦ rw e refl
  | inr e ↦ rw (e, h) refl
]
put-other name other value ((k, v) ∷ headers) h = elim (Bool-cases (text_eq k name)) [
  | inl e ↦
      let same : k ≡ name = (text_eq_iff k name).0 e in
      rw (e, ap (λ (t : Text). text_eq t other) same, h) refl
  | inr e ↦ rw (e, put-other name other value headers h) refl
]

put-same :
    (name value : Text) (headers : Headers)
    → text_eq name proto ≡ false
    → get_exact name (put name value headers) ≡ some value
put-same name value [] h = rw (h, (text_eq_iff name name).1 refl) refl
put-same name value ((k, v) ∷ headers) h = elim (Bool-cases (text_eq k name)) [
  | inl e ↦ rw (e, e) refl
  | inr e ↦ rw (e, e, put-same name value headers h) refl
]

put_self :
    (name value : Text) (headers : Headers)
    → name ≡ proto
    → get_exact proto headers ≡ none
    → get_exact proto (put name value headers) ≡ none
put_self name value [] p h = rw ((text_eq_iff name proto).1 p) refl
put_self name value ((k, v) ∷ headers) p h = elim (Bool-cases (text_eq k proto)) [
  | inl e ↦ let found : some v ≡ none = sym (rw e refl) ∙ h in ground (arith, found)
  | inr e ↦
      let other : text_eq k name ≡ false = ap (text_eq k) p ∙ e in
      let rest : get_exact proto headers ≡ none = sym (rw e refl) ∙ h in
      rw (other, e) (put_self name value headers p rest)
]

-- An object never gets `__proto__` as a key of its own.
put-proto :
    (name value : Text) (headers : Headers)
    → get_exact proto headers ≡ none
    → get_exact proto (put name value headers) ≡ none
put-proto name value headers h = elim (Bool-cases (text_eq name proto)) [
  | inr e ↦ put-other name proto value headers e ∙ h
  | inl e ↦ put_self name value headers ((text_eq_iff name proto).0 e) h
]

or_else-none : (a b : Option Header) → or_else a b ≡ none → (a ≡ none) × (b ≡ none)
or_else-none none b e = (refl, e)
or_else-none (some a) b e = cc

unnamed :
    (name : Text) (h : Header)
    → if_named (to_lower_case name) h ≡ none
    → text_eq h.name name ≡ false
unnamed name h e = text_eq-false h.name name (λ same.
    let named : text_eq (lower_name h) (to_lower_case name) ≡ true =
      (text_eq_iff (lower_name h) (to_lower_case name)).1 (ap to_lower_case same) in
    clash (if_named (to_lower_case name) h) e named)
  where
    clash :
        (o : Option Header)
        → if_named (to_lower_case name) h ≡ none
        → text_eq (lower_name h) (to_lower_case name) ≡ true
        → ⊥
    clash o none' named = ground (arith, none', named)

module _ (cipher : GcmCipher) (key : Bytes) where
  -- Under a row's name stands what is sent of it.
  abbrev pub IsSent : Headers → Header → Type 0
  IsSent headers h =
      get_exact h.name headers ≡ (if text_eq h.name proto then none else sent_value cipher key h)

  pub bind-some :
      {A B : Type 0} (o : Option A) (f : A → Option B) (b : B)
      → (o >>= f) ≡ some b
      → (a : A) × (o ≡ some a) × (f a ≡ some b)
  bind-some none f b e = cc
  bind-some (some a) f b e = (a, refl, e)

  -- A name that no row has, whatever the case, keeps what stands under it.
  sent_headers-other :
      (rows : List Header) (headers out : Headers) (name : Text)
      → sent_headers cipher key rows headers ≡ some out
      → effective (to_lower_case name) rows ≡ none
      → get_exact name out ≡ get_exact name headers
  unfolding sent_headers
  sent_headers-other [] headers out name e fresh = ap (get_exact name) (inj out headers e)
    where
      inj : (a b : Headers) → some b ≡ some a → a ≡ b
      inj a b k = ground (arith, k)
  sent_headers-other (h ∷ rows) headers out name e fresh =
      let (v, p, q) =
        bind-some (sent_value cipher key h)
          (λ x. sent_headers cipher key rows (put h.name x headers)) out e in
      let (later, here) =
        or_else-none (effective (to_lower_case name) rows) (if_named (to_lower_case name) h)
          fresh in
      sent_headers-other rows (put h.name v headers) out name q later
      ∙ put-other h.name name v headers (unnamed name h here)

  pub sent_headers-IsSent :
      (rows : List Header) (headers out : Headers)
      → HasDistinctNames rows
      → get_exact proto headers ≡ none
      → sent_headers cipher key rows headers ≡ some out
      → All (IsSent out) rows
  unfolding sent_headers
  sent_headers-IsSent [] headers out d n e = tt
  sent_headers-IsSent (h ∷ rows) headers out (fresh, d) n e =
      let (v, p, q) =
        bind-some (sent_value cipher key h)
          (λ x. sent_headers cipher key rows (put h.name x headers)) out e in
      let kept = sent_headers-other rows (put h.name v headers) out h.name q fresh in
      (
        kept ∙ first h v headers n p,
        sent_headers-IsSent rows (put h.name v headers) out d (put-proto h.name v headers n) q,
      )
    where
      first :
          (g : Header) (v : Text) (hs : Headers)
          → get_exact proto hs ≡ none
          → sent_value cipher key g ≡ some v
          → get_exact g.name (put g.name v hs)
            ≡ (if text_eq g.name proto then none else sent_value cipher key g)
      first g v hs k p = elim (Bool-cases (text_eq g.name proto)) [
        | inl e ↦
            let same : g.name ≡ proto = (text_eq_iff g.name proto).0 e in
            ap (λ t. get_exact t (put g.name v hs)) same ∙ put-proto g.name v hs k ∙ sym (rw e refl)
        | inr e ↦ put-same g.name v hs e ∙ sym p ∙ sym (rw e refl)
      ]
