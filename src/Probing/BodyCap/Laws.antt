-- ===== src/Probing/BodyCap/Laws.antt =====
-- A capped read retains exactly the first bytes of the body.
use probeboard_api.Common.{
  ℕ, ◌+◌, ◌≤◌, ◌<◌, min, max, ◌≡◌, refl, sym, ap, ◌∙◌, inl, inr, Bool, true, false, Option, none,
  some, List, [], ◌∷◌, ◌++◌, append_assoc, append-nil, arith, ltb, if◌then◌else◌, lt→ltb,
  Bool-cases, length, take, length-append, Text,
}
use probeboard_api.Probing.BodyCap.{
  Bytes, Stream, closed, failed, chunk, CappedBody, Reading, ReadResult, complete, thrown,
  after_cancel, read_loop, concat, capped_of, read_capped_body,
}
use probeboard_api.Probing.BodyCap.Chunks.{
  join, join-append, take-append_short, concat-eq-take, concat-whole,
}

-- The bytes that a stream holds before it ends, and how it ends.
module _ {ℓ} {E : Type ℓ} where
  abbrev pub body_of : Stream E → Bytes
  body_of closed = []
  body_of (failed e) = []
  body_of (chunk c rest) = c ++ body_of rest

  abbrev pub ending : Stream E → ReadResult E (Unit {0})
  ending closed = complete tt
  ending (failed e) = thrown e
  ending (chunk c rest) = ending rest

  finish : Bytes → ReadResult E (Unit {0}) → ReadResult E (Bytes × Bool)
  finish all' (complete _) = complete (all', false)
  finish all' (thrown e) = thrown e

  shorten : Option E → Bytes → ReadResult E (Bytes × Bool)
  shorten none first = complete (first, true)
  shorten (some e) first = thrown e

  judge : Option E → Bytes → ReadResult E (Unit {0}) → ℕ → ReadResult E (Bytes × Bool)
  judge cancelled all' end limit =
      if ltb limit (length all') then shorten cancelled (take limit all') else finish all' end

  -- What a capped read shall give: the first bytes of the body, cut only if there are more; a
  -- stream that fails within the limit fails the read, and past the limit so does a cancel
  -- that rejects.
  unfoldable pub capped_spec : Option E → Stream E → ℕ → ReadResult E (Bytes × Bool)
  unfolding judge finish shorten
  capped_spec cancelled s limit = judge cancelled (body_of s) (ending s) limit

  -- The buffer that `concat` makes of what was read, and whether the read was cut.
  unfoldable pub view : ReadResult E Reading → ℕ → ReadResult E (Bytes × Bool)
  view (complete r) limit = complete (concat r.chunks (min r.total limit), r.truncated)
  view (thrown e) limit = thrown e

  judge_cut :
      (cancelled : Option E) (held more : Bytes) (end : ReadResult E (Unit {0})) (limit : ℕ)
      → limit < length held
      → judge cancelled (held ++ more) end limit ≡ shorten cancelled (take limit held)
  unfolding judge
  judge_cut cancelled held more end limit h =
      let both = length-append held more in
      rw (
        lt→ltb limit (length (held ++ more)) (omega (arith, both)),
        take-append_short limit held more (omega arith),
      )

  judge_whole :
      (cancelled : Option E) (held : Bytes) (end : ReadResult E (Unit {0})) (limit : ℕ)
      → length held ≤ limit
      → judge cancelled held end limit ≡ finish held end
  unfolding judge
  judge_whole cancelled held end limit h =
      let fits : ltb limit (length held) ≡ false = ground arith in rw fits

  view_cancelled :
      (cancelled : Option E) (r : Reading) (limit : ℕ)
      → r.truncated ≡ true
      → view (after_cancel cancelled cancelled r) limit
        ≡ shorten cancelled (concat r.chunks (min r.total limit))
  unfolding view shorten
  view_cancelled none r limit e = rw e refl
  view_cancelled (some x) r limit e = refl

  read_loop-view :
      (cancelled : Option E) (s : Stream E) (chunks : List Bytes) (total limit : ℕ)
      → total ≡ length (join chunks)
      → total ≤ limit
      → view (read_loop cancelled s chunks total limit) limit
        ≡ judge cancelled (join chunks ++ body_of s) (ending s) limit
  unfolding read_loop view
  read_loop-view cancelled closed chunks total limit e le =
      rw (append-nil (join chunks), concat-whole chunks total limit e le)
        (sym
          (unfold finish in judge_whole cancelled (join chunks) (complete tt) limit (omega arith)))
  read_loop-view cancelled (failed x) chunks total limit e le =
      rw (append-nil (join chunks))
        (sym (unfold finish in judge_whole cancelled (join chunks) (thrown x) limit (omega arith)))
  read_loop-view cancelled (chunk [] rest) chunks total limit e le =
      read_loop-view cancelled rest chunks total limit e le
  read_loop-view cancelled (chunk (b ∷ bs) rest) chunks total limit e le =
      let value : Bytes = b ∷ bs in
      let held : join (chunks ++ value ∷ []) ≡ join chunks ++ value = join-append chunks value in
      let size : length (join (chunks ++ value ∷ [])) ≡ total + length value =
        omega (arith, ap length held, length-append (join chunks) value) in
      rw (sym (append_assoc (join chunks) value (body_of rest)), ← held)
        (elim (Bool-cases (ltb limit (total + length value))) [
          | inl cut ↦
              let whole : min (total + length value) limit ≡ limit = ground arith in
              let last : Reading = record {
                chunks = chunks ++ value ∷ [];
                total = total + length value;
                truncated = true;
              } in
              rw cut (
                view_cancelled cancelled last limit refl
                ∙ rw (whole, concat-eq-take (chunks ++ value ∷ []) limit (ground arith))
                    (sym (
                      judge_cut cancelled (join (chunks ++ value ∷ [])) (body_of rest) (ending rest)
                        limit (ground arith))))
          | inr on ↦ rw on (
              read_loop-view cancelled rest (chunks ++ value ∷ []) (total + length value) limit
                (sym size) (ground arith))
        ])

  read_loop-capped :
      (cancelled : Option E) (s : Stream E) (limit : ℕ)
      → view (read_loop cancelled s [] 0 limit) limit ≡ capped_spec cancelled s limit
  unfolding capped_spec
  read_loop-capped cancelled s limit = read_loop-view cancelled s [] 0 limit refl (omega arith)

  -- The longest chunk of a stream.
  abbrev pub longest : Stream E → ℕ
  longest closed = 0
  longest (failed e) = 0
  longest (chunk c rest) = max (length c) (longest rest)

  read_loop_peak :
      (cancelled : Option E) (s : Stream E) (chunks : List Bytes) (total limit : ℕ) (r : Reading)
      → read_loop cancelled s chunks total limit ≡ complete r
      → total ≤ limit
      → r.total ≤ limit + longest s
  unfolding read_loop
  read_loop_peak cancelled closed chunks total limit r h le = ground arith
  read_loop_peak cancelled (failed e) chunks total limit r h le = cc
  read_loop_peak cancelled (chunk [] rest) chunks total limit r h le =
      omega (arith, read_loop_peak cancelled rest chunks total limit r h le)
  read_loop_peak none (chunk (b ∷ bs) rest) chunks total limit r h le =
      ground (
        arith,
        read_loop_peak none rest (chunks ++ (b ∷ bs) ∷ []) (total + length (b ∷ bs)) limit r,
      )
  read_loop_peak (some x) (chunk (b ∷ bs) rest) chunks total limit r h le = ground (
    arith,
    read_loop_peak (some x) rest (chunks ++ (b ∷ bs) ∷ []) (total + length (b ∷ bs)) limit r,
  )

  -- What the caller sees of a result, the peak left out.
  unfoldable pub shown : ReadResult E CappedBody → ReadResult E (Text × Bool × ℕ)
  shown (complete b) = complete (b.text, b.truncated, b.bytes)
  shown (thrown e) = thrown e

  unfoldable pub decoded :
      (Bytes → Text) → ReadResult E (Bytes × Bool) → ReadResult E (Text × Bool × ℕ)
  decoded decode (complete (bs, cut)) = complete (decode bs, cut, length bs)
  decoded decode (thrown e) = thrown e

module _ {ℓ} {E : Type ℓ} (decode : Bytes → Text) where
  shown-view :
      (r : ReadResult E Reading) (limit : ℕ)
      → shown (elim r [ complete x ↦ complete (capped_of decode x limit) | thrown e ↦ thrown e ])
        ≡ decoded decode (view r limit)
  unfolding shown decoded view capped_of
  shown-view (complete r) limit = refl
  shown-view (thrown e) limit = refl

  -- A read retains the first `limit` bytes of the body, and counts as truncated exactly when the
  -- body is longer; it fails if the stream fails within the limit, and past the limit exactly if
  -- the cancel of the stream rejects.
  pub read_capped_body-capped :
      (cancelled : Option E) (s : Stream E) (limit : ℕ)
      → shown (read_capped_body decode cancelled (some s) limit)
        ≡ decoded decode (capped_spec cancelled s limit)
  unfolding read_capped_body
  read_capped_body-capped cancelled s limit =
      shown-view (read_loop cancelled s [] 0 limit) limit
      ∙ ap (decoded decode) (read_loop-capped cancelled s limit)

  -- The bytes held at once never exceed the limit by more than one chunk.
  pub read_capped_body_peak :
      (cancelled : Option E) (s : Stream E) (limit : ℕ) (b : CappedBody)
      → read_capped_body decode cancelled (some s) limit ≡ complete b
      → b.peak_bytes ≤ limit + longest s
  unfolding read_capped_body
  read_capped_body_peak cancelled s limit b h = go (read_loop cancelled s [] 0 limit) refl h
    where
      go :
          (r : ReadResult E Reading)
          → read_loop cancelled s [] 0 limit ≡ r
          → elim r [ complete x ↦ complete (capped_of decode x limit) | thrown e ↦ thrown e ]
            ≡ complete b
          → b.peak_bytes ≤ limit + longest s
      go (complete r) e k =
          let same : (capped_of decode r limit).peak_bytes ≡ b.peak_bytes = ground arith in
          omega (arith, same, read_loop_peak cancelled s [] 0 limit r e (omega arith))
      go (thrown x) e k = cc
