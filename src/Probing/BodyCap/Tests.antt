-- ===== src/Probing/BodyCap/Tests.antt =====
-- Small bodies around the cap.
use probeboard_api.Common.{ℕ, ◌+◌, ◌≤◌, ◌≡◌, refl, true, none, some, [], ◌∷◌, Text}
use probeboard_api.Probing.BodyCap.{
  Bytes, Stream, failed, chunk, CappedBody, complete, thrown, read_loop, concat, concat_from,
  capped_of, read_capped_body,
}
use probeboard_api.Probing.BodyCap.Laws.{
  shown, decoded, capped_spec, longest, read_capped_body-capped, read_capped_body_peak,
}

abbrev same : Bytes → Text
same b = b

abbrev long : Stream ℕ
long = chunk (1 ∷ 2 ∷ []) (chunk [] (chunk (3 ∷ 4 ∷ 5 ∷ []) (failed 7)))

abbrev cut : CappedBody
cut = record { text = 1 ∷ 2 ∷ 3 ∷ []; truncated = true; bytes = 3; peak_bytes = 5 }

-- The failure lies past the cap, and the cancel resolves.
cuts : read_capped_body same none (some long) 3 ≡ complete cut
unfolding read_capped_body read_loop capped_of concat concat_from
cuts = refl

cancel_fails : read_capped_body same (some 8) (some long) 3 ≡ thrown 8
unfolding read_capped_body read_loop
cancel_fails = refl

fails : read_capped_body same none (some long) 5 ≡ thrown 7
unfolding read_capped_body read_loop
fails = refl

read_capped_body-capped_example :
    shown (read_capped_body same none (some long) 3) ≡ decoded same (capped_spec none long 3)
read_capped_body-capped_example = read_capped_body-capped same none long 3

read_capped_body_peak_example : 5 ≤ 3 + longest long
read_capped_body_peak_example = read_capped_body_peak same none long 3 cut cuts
