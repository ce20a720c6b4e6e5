-- ===== src/Auth/RateLimit/Laws.antt =====
-- What the steps of the rate limit leave of the counts.
use probeboard_api.Common.{
  ℕ, ◌≤◌, ◌≡◌, refl, ◌∙◌, inl, inr, Bool, true, false, not, ◌&&◌, Option, none, some, List, [], ◌∷◌,
  map, arith, ltb, ◌==◌, if◌then◌else◌, Bool-cases, Text, text_eq,
}
use probeboard_api.Auth.RateLimit.{
  AuthAttemptScope, ip, email, register, same_scope, Attempt, Attempts, tally, keep_if, is_counted,
  count, is_open, newest, succeed, mark, clear_email, mark_succeeded, prune_before,
}

module _ {ℓ} {A : Type ℓ} (p : A → Bool) where
  pub tally-le :
      (q : A → Bool) (xs : List A) → ((x : A) → p x ≡ true → q x ≡ true) → tally p xs ≤ tally q xs
  tally-le q [] h = omega arith
  tally-le q (x ∷ xs) h = elim (Bool-cases (p x)) [
    | inl e ↦ rw (e, h x e) (omega (arith, tally-le q xs h))
    | inr e ↦ rw e (elim (Bool-cases (q x)) [
      | inl f ↦ rw f (omega (arith, tally-le q xs h))
      | inr f ↦ rw f (tally-le q xs h)
    ])
  ]

  pub tally-keep_if :
      (keep : A → Bool) (xs : List A)
      → ((x : A) → p x ≡ true → keep x ≡ true)
      → tally p (keep_if keep xs) ≡ tally p xs
  tally-keep_if keep [] h = refl
  tally-keep_if keep (x ∷ xs) h = elim (Bool-cases (p x)) [
    | inl e ↦ rw (h x e, e, tally-keep_if keep xs h) refl
    | inr e ↦ elim (Bool-cases (keep x)) [
      | inl f ↦ rw (f, e, tally-keep_if keep xs h) refl
      | inr f ↦ rw (f, e, tally-keep_if keep xs h) refl
    ]
  ]

  pub tally-map :
      (f : A → A) (xs : List A) → ((x : A) → p (f x) ≡ p x) → tally p (map f xs) ≡ tally p xs
  tally-map f [] h = refl
  tally-map f (x ∷ xs) h = rw (h x, tally-map f xs h) refl

-- The scopes of an address.
abbrev pub IsHost : AuthAttemptScope → Type 0
IsHost scope = same_scope email scope ≡ false

not_email : (a b : AuthAttemptScope) → IsHost b → same_scope a b ≡ true → same_scope a email ≡ false
not_email ip b h e = refl
not_email register b h e = refl
not_email email b h e = cc

module _ (scope : AuthAttemptScope) (key : Text) (since : ℕ) where
  count_mark :
      (q : Option Attempt) (rows : List Attempt)
      → count scope key since false (mark q rows) ≡ count scope key since false rows
  unfolding count
  count_mark none rows = refl
  count_mark (some q) rows =
      tally-map (is_counted scope key since false) (λ r. if r.id == q.id then succeed r else r) rows
        (λ r. one r (r.id == q.id))
    where
      one :
          (r : Attempt) (b : Bool)
          → is_counted scope key since false (if b then succeed r else r)
            ≡ is_counted scope key since false r
      one r true = refl
      one r false = refl

  count-clear_email :
      (mail : Option Text) (rows : List Attempt)
      → IsHost scope
      → count scope key since false (clear_email mail rows) ≡ count scope key since false rows
  unfolding count
  count-clear_email none rows h = refl
  count-clear_email (some address) rows h =
      tally-keep_if (is_counted scope key since false) _ rows (λ r e. kept r e)
    where
      kept :
          (r : Attempt)
          → is_counted scope key since false r ≡ true
          → not (same_scope r.scope email && text_eq r.key address) ≡ true
      kept r e =
          let same : same_scope r.scope scope ≡ true = ground (arith, e) in
          rw (not_email r.scope scope h same) refl

  pub count-mark_succeeded :
      (host : Text) (mail : Option Text) (now : ℕ) (s : Attempts)
      → IsHost scope
      → count scope key since false (mark_succeeded host mail now s).rows
        ≡ count scope key since false s.rows
  unfolding mark_succeeded
  count-mark_succeeded host mail now s h =
      count-clear_email mail (mark (newest (keep_if (is_open host now) s.rows)) s.rows) h
      ∙ count_mark (newest (keep_if (is_open host now) s.rows)) s.rows

  pub count-prune_before :
      (cutoff : ℕ) (s : Attempts)
      → cutoff ≤ since
      → count scope key since false (prune_before cutoff s).rows
        ≡ count scope key since false s.rows
  unfolding count prune_before
  count-prune_before cutoff s h =
      tally-keep_if (is_counted scope key since false) _ s.rows (λ r e. kept r e)
    where
      kept :
          (r : Attempt)
          → is_counted scope key since false r ≡ true
          → not (ltb r.occurred_at cutoff) ≡ true
      kept r e = ground (arith, e, h)
