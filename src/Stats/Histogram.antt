-- ===== src/Stats/Histogram.antt =====
-- core/stats/constants.ts and histogram.ts: the fixed bucket edges and the histogram operations.
-- Latencies are whole milliseconds, as the `total_ms` column stores them. A thrown `RangeError` is
-- `none`.
pub mod Laws
mod Tests
use probeboard_api.Common.{
  ℕ, suc, ◌+◌, Bool, ◌&&◌, Option, none, some, List, [], ◌∷◌, ltb, ◌==◌, if◌then◌else◌, length,
  replicate,
}

abbrev pub histogram_edges_ms : List ℕ
histogram_edges_ms =
    10 ∷ 25 ∷ 50 ∷ 75 ∷ 100 ∷ 150 ∷ 200 ∷ 300 ∷ 500 ∷ 750 ∷ 1000 ∷ 1500 ∷ 2000 ∷ 3000 ∷ 5000 ∷ 7500
    ∷ 10000 ∷ 15000 ∷ 30000 ∷ []

abbrev pub histogram_buckets : ℕ
histogram_buckets = length histogram_edges_ms + 1

-- The loop of `bucketIndex`, which breaks at the first edge that is not below.
unfoldable pub count_edges : ℕ → ℕ → List ℕ → ℕ
count_edges ms n [] = n
count_edges ms n (edge ∷ edges) =
    let rest = count_edges ms (n + 1) edges in if ltb edge ms then rest else n

unfoldable pub bucket_index : ℕ → ℕ
unfolding count_edges
bucket_index ms = count_edges ms 0 histogram_edges_ms

unfoldable pub empty_histogram : List ℕ
empty_histogram = replicate histogram_buckets 0

-- `a.map((v, i) => v + b[i])`, on lists of one length.
unfoldable pub add_lists : List ℕ → List ℕ → List ℕ
add_lists (a ∷ as') (b ∷ bs) = (a + b) ∷ add_lists as' bs
add_lists [] bs = []
add_lists (a ∷ as') [] = []

unfoldable pub merge_histograms : List ℕ → List ℕ → Option (List ℕ)
unfolding add_lists
merge_histograms a b =
    if (length a == histogram_buckets) && (length b == histogram_buckets)
    then some (add_lists a b)
    else none

unfoldable pub histogram_count : List ℕ → ℕ
histogram_count [] = 0
histogram_count (v ∷ hist) = v + histogram_count hist
