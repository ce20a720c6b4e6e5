-- ===== src/Probing/BodyCap/Chunks.antt =====
-- The buffer that a read makes of its chunks.
use probeboard_api.Common.{
  ℕ, zero, suc, ◌+◌, ◌-◌, ◌≤◌, min, ◌≡◌, refl, sym, ap, ◌∙◌, inl, inr, List, [], ◌∷◌, ◌++◌,
  append_assoc, append-nil, arith, leb, tests, Bool-cases, length, take, length-append,
}
use probeboard_api.Probing.BodyCap.{Bytes, concat_from, concat}

-- All bytes that a list of chunks holds.
abbrev pub join : List Bytes → Bytes
join [] = []
join (c ∷ chunks) = c ++ join chunks

pub join-append : (chunks : List Bytes) (c : Bytes) → join (chunks ++ c ∷ []) ≡ join chunks ++ c
join-append [] c = append-nil c
join-append (d ∷ chunks) c = rw (join-append chunks c) (sym (append_assoc d (join chunks) c))

pub take-append_short : (n : ℕ) (xs ys : Bytes) → n ≤ length xs → take n (xs ++ ys) ≡ take n xs
take-append_short zero xs ys h = refl
take-append_short (suc n) [] ys h = absurd (omega arith)
take-append_short (suc n) (x ∷ xs) ys h = rw (take-append_short n xs ys (omega arith))

take-append_long :
    (n m : ℕ) (xs ys : Bytes) → n ≡ length xs + m → take n (xs ++ ys) ≡ xs ++ take m ys
take-append_long n m [] ys h = let e : n ≡ m = omega arith in rw e
take-append_long zero m (x ∷ xs) ys h = absurd (omega arith)
take-append_long (suc n) m (x ∷ xs) ys h = rw (take-append_long n m xs ys (omega arith))

take_all : (xs : Bytes) → take (length xs) xs ≡ xs
take_all [] = refl
take_all (x ∷ xs) = rw (take_all xs)

-- With enough bytes at hand, the buffer is filled with the first ones.
concat_from-eq-take :
    (chunks : List Bytes) (offset size : ℕ)
    → size ≤ offset + length (join chunks)
    → concat_from chunks offset size ≡ take (size - offset) (join chunks)
unfolding concat_from
concat_from-eq-take [] offset size h = let e : size - offset ≡ 0 = omega arith in rw e
concat_from-eq-take (c ∷ chunks) offset size h = elim (Bool-cases (leb size offset)) [
  | inl past ↦ let e : size - offset ≡ 0 = omega tests in rw (past, e)
  | inr room ↦ elim (Bool-cases (leb (length c) (size - offset))) [
    | inl whole ↦
        let e : min (length c) (size - offset) ≡ length c = omega tests in
        let le : size - offset ≡ length c + (size - (offset + length c)) = ground arith in
        rw (room, e, take_all c)
          (rw
            (concat_from-eq-take chunks (offset + length c) size
              (omega (arith, length-append c (join chunks))))
            (sym (take-append_long _ _ c (join chunks) le)))
    | inr part ↦
        let e : min (length c) (size - offset) ≡ size - offset = ground arith in
        let z : size - (offset + (size - offset)) ≡ 0 = omega arith in
        rw (room, e)
          (rw (concat_from-eq-take chunks (offset + (size - offset)) size (omega arith), z)
            (append-nil _ ∙ sym (take-append_short (size - offset) c (join chunks) (ground arith))))
  ]
]

pub concat-eq-take :
    (chunks : List Bytes) (size : ℕ)
    → size ≤ length (join chunks)
    → concat chunks size ≡ take size (join chunks)
unfolding concat
concat-eq-take chunks size h =
    concat_from-eq-take chunks 0 size (omega arith) ∙ ap (λ n. take n (join chunks)) (omega arith)

pub concat-whole :
    (chunks : List Bytes) (total limit : ℕ)
    → total ≡ length (join chunks)
    → total ≤ limit
    → concat chunks (min total limit) ≡ join chunks
concat-whole chunks total limit e le =
    let all' : min total limit ≡ length (join chunks) = omega arith in
    rw all' (concat-eq-take chunks (length (join chunks)) (omega arith) ∙ take_all (join chunks))
