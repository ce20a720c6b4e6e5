-- ===== src/Regex/Laws.antt =====
-- The matcher decides the language of its expression.
use probeboard_api.Common.{
  ℕ, ◌≡◌, refl, sym, ◌∙◌, ◌↔◌, ◌⊎◌, inl, inr, true, and-eq-true_iff, [], ◌∷◌, ◌++◌, arith,
  Bool-cases, Text,
}
use mathlib.Core.Path.{subst}
use probeboard_api.Regex.{
  Regex, nothing, empty, unit, seq, alt, star, accepts_empty, derive, matches,
}

-- Finitely many parts, each in a language.
pub data Repeats (P : Text → Type 0) : Text → Type 0 where
  stop : {s : Text} → s ≡ [] → Repeats P s
  more : {s : Text} (a b : Text) → s ≡ a ++ b → P a → Repeats P b → Repeats P s

abbrev pub Matches : Regex → Text → Type 0
Matches nothing s = ⊥
Matches empty s = s ≡ []
Matches (unit p) s = (c : ℕ) × (p c ≡ true) × (s ≡ c ∷ [])
Matches (seq r q) s = (a : Text) × (b : Text) × (s ≡ a ++ b) × Matches r a × Matches q b
Matches (alt r q) s = Matches r s ⊎ Matches q s
Matches (star r) s = Repeats (Matches r) s

accepts_empty_sound : (r : Regex) → accepts_empty r ≡ true → Matches r []
unfolding accepts_empty
accepts_empty_sound nothing h = cc
accepts_empty_sound empty h = refl
accepts_empty_sound (unit p) h = cc
accepts_empty_sound (seq r q) h =
    let (x, y) = (and-eq-true_iff _ _).0 h in
    ([], [], refl, accepts_empty_sound r x, accepts_empty_sound q y)
accepts_empty_sound (alt r q) h = elim (Bool-cases (accepts_empty r)) [
  | inl x ↦ inl (accepts_empty_sound r x)
  | inr n ↦ inr (accepts_empty_sound q (rw n at h))
]
accepts_empty_sound (star r) h = stop refl

nil_parts : (a b : Text) → [] ≡ a ++ b → (a ≡ []) × (b ≡ [])
nil_parts [] b e = (refl, sym e)
nil_parts (c ∷ a) b e = cc

accepts_empty_complete : (r : Regex) → Matches r [] → accepts_empty r ≡ true
unfolding accepts_empty
accepts_empty_complete nothing h = absurd h
accepts_empty_complete empty h = refl
accepts_empty_complete (unit p) (c, t, e) = cc
accepts_empty_complete (seq r q) (a, b, e, x, y) =
    let (za, zb) = nil_parts a b e in
    (and-eq-true_iff _ _).1 (
      accepts_empty_complete r (subst (Matches r) za x),
      accepts_empty_complete q (subst (Matches q) zb y),
    )
accepts_empty_complete (alt r q) (inl x) = rw (accepts_empty_complete r x)
accepts_empty_complete (alt r q) (inr x) = let h = accepts_empty_complete q x in ground arith
accepts_empty_complete (star r) h = refl

derive_sound : (c : ℕ) (r : Regex) (s : Text) → Matches (derive c r) s → Matches r (c ∷ s)
unfolding derive
derive_sound c nothing s m = m
derive_sound c empty s m = absurd m
derive_sound c (unit p) s m = elim (Bool-cases (p c)) [
  | inl good ↦ let e : s ≡ [] = (rw good at m) in (c, good, rw e)
  | inr bad ↦ absurd (rw bad at m)
]
derive_sound c (seq r q) s m = elim (Bool-cases (accepts_empty r)) [
  | inl skip ↦ elim (rw skip at m) [
    | inl (a, b, e, x, y) ↦ (c ∷ a, b, rw e, derive_sound c r a x, y)
    | inr y ↦ ([], c ∷ s, refl, accepts_empty_sound r skip, derive_sound c q s y)
  ]
  | inr must ↦ let (a, b, e, x, y) = (rw must at m) in (c ∷ a, b, rw e, derive_sound c r a x, y)
]
derive_sound c (alt r q) s (inl x) = inl (derive_sound c r s x)
derive_sound c (alt r q) s (inr x) = inr (derive_sound c q s x)
derive_sound c (star r) s (a, b, e, x, y) = more (c ∷ a) b (rw e) (derive_sound c r a x) y

-- A first unit is the first one of the first part that has any.
module _ (P Q : Text → Type 0) (c : ℕ) (strip : (s : Text) → P (c ∷ s) → Q s) where
  Repeats-first :
      {t : Text} (s : Text)
      → Repeats P t
      → t ≡ c ∷ s
      → (a : Text) × (b : Text) × (s ≡ a ++ b) × Q a × Repeats P b
  Repeats-first s (stop e) z = cc
  Repeats-first s (more [] b e x y) z = Repeats-first s y (sym e ∙ z)
  Repeats-first s (more (d ∷ a) b e x y) z =
      let same : d ≡ c = ground arith in
      (a, b, ground arith, strip a (subst (λ u. P (u ∷ a)) same x), y)

derive_complete : (c : ℕ) (r : Regex) (s : Text) → Matches r (c ∷ s) → Matches (derive c r) s
unfolding derive
derive_complete c nothing s m = m
derive_complete c empty s m = cc
derive_complete c (unit p) s (d, good, e) =
    let same : d ≡ c = ground arith in
    let here : p c ≡ true = subst (λ u. p u ≡ true) same good in rw here (ground arith)
derive_complete c (seq r q) s ([], b, e, x, y) =
    rw (accepts_empty_complete r x) (inr (derive_complete c q s (subst (Matches q) (sym e) y)))
derive_complete c (seq r q) s (d ∷ a, b, e, x, y) =
    let same : d ≡ c = ground arith in
    let first : Matches (seq (derive c r) q) s =
      (a, b, ground arith, derive_complete c r a (subst (λ u. Matches r (u ∷ a)) same x), y) in
    elim (Bool-cases (accepts_empty r)) [
      | inl skip ↦ rw skip (inl first)
      | inr must ↦ rw must first
    ]
derive_complete c (alt r q) s (inl x) = inl (derive_complete c r s x)
derive_complete c (alt r q) s (inr x) = inr (derive_complete c q s x)
derive_complete c (star r) s m =
    Repeats-first (Matches r) (Matches (derive c r)) c (derive_complete c r) s m refl

-- The test answers true exactly on the texts of the language.
pub matches_iff : (r : Regex) (s : Text) → (matches r s ≡ true) ↔ Matches r s
unfolding matches
matches_iff r [] = (accepts_empty_sound r, accepts_empty_complete r)
matches_iff r (c ∷ s) =
    let (sound, complete) = matches_iff (derive c r) s in
    (λ h. derive_sound c r s (sound h), λ m. complete (derive_complete c r s m))
