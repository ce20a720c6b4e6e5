-- ===== src/Probing/FailureClasses/Causes.antt =====
-- The walk along a `cause` chain: remembering what it has seen changes no answer.
use probeboard_api.Common.{
  ℕ, zero, suc, ◌≡◌, refl, sym, ◌⊎◌, inl, inr, true, Option, none, some, List, [], ◌∷◌, arith,
  Bool-cases, Option-cases, Text,
}
use probeboard_api.Probing.FailureClasses.{
  Thrown, primitive, object, Heap, max_cause_depth, or_else, own_string, is_seen, walk,
  transport_code,
}

module _ (h : Heap) where
  -- The chain without a memory: the first code among the first `depth` values.
  unfoldable pub first_code : ℕ → Option Thrown → Option Text
  first_code zero current = none
  first_code (suc depth) none = none
  first_code (suc depth) (some primitive) = none
  first_code (suc depth) (some (object p)) =
      let next = first_code depth (h p).cause in or_else (own_string (h p).code) next

  -- Each value seen has no code, and leads to one that was seen or to where the walk stands.
  abbrev Explored : List ℕ → Option Thrown → Type 0
  Explored seen current =
      (q : ℕ)
      → is_seen q seen ≡ true
      → (own_string (h q).code ≡ none)
        × (((h q).cause ≡ current)
            ⊎ ((r : ℕ) × ((h q).cause ≡ some (object r)) × (is_seen r seen ≡ true)))

  -- A cycle of values with no code has no code at any depth.
  first_code_cycle :
      (depth p : ℕ) (seen : List ℕ) (q : ℕ)
      → Explored seen (some (object p))
      → is_seen p seen ≡ true
      → is_seen q seen ≡ true
      → first_code depth (some (object q)) ≡ none
  unfolding first_code
  first_code_cycle zero p seen q inv here at = refl
  first_code_cycle (suc depth) p seen q inv here at =
      let (bare, leads) = inv q at in
      rw bare (elim leads [
        | inl back ↦ rw back (first_code_cycle depth p seen p inv here here)
        | inr (r, next, there) ↦ rw next (first_code_cycle depth p seen r inv here there)
      ])

  is_seen-cons :
      (q p : ℕ) (seen : List ℕ) → is_seen q (p ∷ seen) ≡ true → (p ≡ q) ⊎ (is_seen q seen ≡ true)
  is_seen-cons q p seen e = ground arith

  is_seen-head : (p : ℕ) (seen : List ℕ) → is_seen p (p ∷ seen) ≡ true
  is_seen-head p seen = ground arith

  is_seen-tail : (q p : ℕ) (seen : List ℕ) → is_seen q seen ≡ true → is_seen q (p ∷ seen) ≡ true
  is_seen-tail q p seen e = ground arith

  Explored-step :
      (p : ℕ) (seen : List ℕ)
      → own_string (h p).code ≡ none
      → Explored seen (some (object p))
      → Explored (p ∷ seen) (h p).cause
  Explored-step p seen bare inv q at = elim (is_seen-cons q p seen at) [
    | inl same ↦ rw (← same) (bare, inl refl)
    | inr old ↦
        let (b, leads) = inv q old in
        (
          b,
          elim leads [
            | inl back ↦ inr (p, back, is_seen-head p seen)
            | inr (r, next, there) ↦ inr (r, next, is_seen-tail r p seen there)
          ],
        )
  ]

  walk-eq-first_code :
      (depth : ℕ) (seen : List ℕ) (current : Option Thrown)
      → Explored seen current
      → walk h depth seen current ≡ first_code depth current
  unfolding walk first_code
  walk-eq-first_code zero seen current inv = refl
  walk-eq-first_code (suc depth) seen none inv = refl
  walk-eq-first_code (suc depth) seen (some primitive) inv = refl
  walk-eq-first_code (suc depth) seen (some (object p)) inv = elim (Bool-cases (is_seen p seen)) [
    | inl again ↦ rw again (sym (first_code_cycle (suc depth) p seen p inv again again))
    | inr fresh ↦ elim (Option-cases (own_string (h p).code)) [
      | inr (code, found) ↦ rw (fresh, found)
      | inl bare ↦
          rw (fresh, bare)
            (walk-eq-first_code depth (p ∷ seen) (h p).cause (Explored-step p seen bare inv))
    ]
  ]

  -- The guarded walk finds the first code among the first eight values of the chain: a cycle that
  -- the memory cuts short holds no code at all.
  pub transport_code-eq-first_code :
      (error : Thrown) → transport_code h error ≡ first_code max_cause_depth (some error)
  unfolding transport_code
  transport_code-eq-first_code error =
      walk-eq-first_code max_cause_depth [] (some error) (λ q at. cc)
