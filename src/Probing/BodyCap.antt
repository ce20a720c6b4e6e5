-- ===== src/Probing/BodyCap.antt =====
-- worker/probing/utils/body-cap.ts: a response body read under a hard cap.
-- A stream is what its reader's `read()` answers, in order. Bytes are decoded by the platform's
-- `TextDecoder`, a parameter.
pub mod Chunks
pub mod Laws
mod Tests
use probeboard_api.Common.{
  ℕ, zero, suc, ◌+◌, ◌-◌, min, max, refl, sym, ap, inl, inr, Bool, true, false, not,
  and-eq-true_iff, Option, none, some, List, [], ◌∷◌, ◌++◌, map, append_assoc, append-nil, arith,
  ltb, leb, if◌then◌else◌, ltb→lt, lt→ltb, leb→le, ==_iff, tests, Bool-cases, Option-cases, length,
  get_elem?, get_or, take, replicate, length-append, length-take, all, any, find, All, All-append,
  Text, codes, text_eq, text_eq_iff, starts_with, includes, has, lower_unit, upper_unit,
  to_lower_case, to_upper_case,
}

abbrev pub Bytes : Type 0
Bytes = List ℕ

-- An `undefined` value with `done: false` is an empty chunk here; both are passed over.
pub data Stream {ℓ} (E : Type ℓ) : Type ℓ where
  closed : Stream E
  failed : E → Stream E
  chunk : Bytes → Stream E → Stream E

pub record CappedBody : Type 0 where
  pub text : Text
  pub truncated : Bool
  pub bytes : ℕ
  pub peak_bytes : ℕ

-- What the loop leaves behind: its variables.
pub record Reading : Type 0 where
  pub chunks : List Bytes
  pub total : ℕ
  pub truncated : Bool

pub data ReadResult {ℓ} (E : Type ℓ) (A : Type 0) : Type ℓ where
  complete : A → ReadResult E A
  thrown : E → ReadResult E A

module _ {ℓ} {E : Type ℓ} (cancelled : Option E) where
  -- `cancelled` is what `reader.cancel()` rejects with, if it does.
  abbrev pub after_cancel : Option E → Reading → ReadResult E Reading
  after_cancel none r = complete r
  after_cancel (some e) r = thrown e

  -- The `for (;;)` loop. A cut is its only call of `reader.cancel()`, which is awaited.
  unfoldable pub read_loop : Stream E → List Bytes → ℕ → ℕ → ReadResult E Reading
  read_loop closed chunks total cap =
      complete (record { chunks = chunks; total = total; truncated = false })
  read_loop (failed e) chunks total cap = thrown e
  read_loop (chunk [] rest) chunks total cap = read_loop rest chunks total cap
  read_loop (chunk (b ∷ bs) rest) chunks total cap =
      let value = b ∷ bs in
      let more = read_loop rest (chunks ++ value ∷ []) (total + length value) cap in
      if ltb cap (total + length value)
      then after_cancel cancelled
          (record { chunks = chunks ++ value ∷ []; total = total + length value; truncated = true })
      else more

-- `concat`: the buffer from `offset` on; what no chunk fills stays zero.
unfoldable pub concat_from : List Bytes → ℕ → ℕ → Bytes
concat_from [] offset size = replicate (size - offset) 0
concat_from (c ∷ chunks) offset size =
    let kept = min (length c) (size - offset) in
    if leb size offset
    then replicate (size - offset) 0
    else take kept c ++ concat_from chunks (offset + kept) size

unfoldable pub concat : List Bytes → ℕ → Bytes
unfolding concat_from
concat chunks size = concat_from chunks 0 size

abbrev pub empty_body : CappedBody
empty_body = record { text = []; truncated = false; bytes = 0; peak_bytes = 0 }

module _ (decode : Bytes → Text) where
  unfoldable pub capped_of : Reading → ℕ → CappedBody
  unfolding concat
  capped_of r cap =
      let retained = concat r.chunks (min r.total cap) in
      record {
        text = decode retained;
        truncated = r.truncated;
        bytes = length retained;
        peak_bytes = r.total;
      }

  unfoldable pub read_capped_body {ℓ} :
      {E : Type ℓ} → Option E → Option (Stream E) → ℕ → ReadResult E CappedBody
  unfolding read_loop capped_of
  read_capped_body cancelled none cap = complete empty_body
  read_capped_body cancelled (some body) cap = elim (read_loop cancelled body [] 0 cap) [
    | complete r ↦ complete (capped_of r cap)
    | thrown e ↦ thrown e
  ]
