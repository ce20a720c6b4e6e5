-- ===== src/Stats/Histogram/Tests.antt =====
-- The histogram operations at concrete inputs.
use probeboard_api.Common.{ℕ, ◌≡◌, refl, List, [], ◌∷◌, ◌++◌, replicate}
use probeboard_api.Stats.Histogram.{histogram_edges_ms, bucket_index}
use probeboard_api.Stats.Histogram.Laws.{InBucket, bucket_index-InBucket}

bucket_tests :
    (bucket_index 0 ≡ 0)
    × (bucket_index 10 ≡ 0)
    × (bucket_index 11 ≡ 1)
    × (bucket_index 30000 ≡ 18)
    × (bucket_index 30001 ≡ 19)
unfolding bucket_index
bucket_tests = (refl, refl, refl, refl, refl)

bucket_index-InBucket_example : InBucket histogram_edges_ms (bucket_index 250) 250
bucket_index-InBucket_example = bucket_index-InBucket 250

abbrev one_slow : List ℕ
one_slow = 2 ∷ replicate 18 0 ++ 1 ∷ []
