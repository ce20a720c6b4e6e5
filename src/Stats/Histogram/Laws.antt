-- ===== src/Stats/Histogram/Laws.antt =====
-- What the bucket index means, and that merging is exact.
use probeboard_api.Common.{
  ℕ, zero, suc, ◌+◌, ◌≤◌, ◌<◌, ◌≡◌, refl, inl, inr, Option, none, some, List, [], ◌∷◌, arith, ltb,
  if◌then◌else◌, tests, Bool-cases, length, get_elem?, All,
}
use probeboard_api.Stats.Histogram.{
  histogram_edges_ms, histogram_buckets, count_edges, bucket_index, add_lists, merge_histograms,
  histogram_count,
}

-- How many edges lie strictly below a latency, with no break: the documented meaning.
unfoldable pub edges_below : ℕ → List ℕ → ℕ
edges_below ms [] = 0
edges_below ms (edge ∷ edges) = (if ltb edge ms then 1 else 0) + edges_below ms edges

abbrev pub IsAscending : List ℕ → Type 0
IsAscending [] = Unit
IsAscending (e ∷ es) = All (λ x. e ≤ x) es × IsAscending es

edges_below_none : (ms e : ℕ) (es : List ℕ) → ms ≤ e → All (λ x. e ≤ x) es → edges_below ms es ≡ 0
unfolding edges_below
edges_below_none ms e [] h a = refl
edges_below_none ms e (x ∷ es) h (p, a) = ground (arith, edges_below_none ms e es h a)

count_edges-eq-edges_below :
    (ms n : ℕ) (es : List ℕ) → IsAscending es → count_edges ms n es ≡ n + edges_below ms es
unfolding count_edges edges_below
count_edges-eq-edges_below ms n [] a = omega arith
count_edges-eq-edges_below ms n (e ∷ es) (p, a) =
    ground (arith, count_edges-eq-edges_below ms (n + 1) es a, edges_below_none ms e es)

histogram_edges-IsAscending : IsAscending histogram_edges_ms
histogram_edges-IsAscending = omega arith

-- The index is the number of edges strictly below the latency, although the loop stops early.
pub bucket_index-eq-edges_below : (ms : ℕ) → bucket_index ms ≡ edges_below ms histogram_edges_ms
unfolding bucket_index
bucket_index-eq-edges_below ms =
    omega (arith, count_edges-eq-edges_below ms 0 histogram_edges_ms histogram_edges-IsAscending)

-- A latency lies in bucket i: above the edge before it, if any, and at most at its own, if any.
abbrev pub IsAbove : Option ℕ → ℕ → Type 0
IsAbove none ms = Unit
IsAbove (some e) ms = e < ms

abbrev pub IsAtMost : Option ℕ → ℕ → Type 0
IsAtMost none ms = Unit
IsAtMost (some e) ms = ms ≤ e

abbrev pub edge_before : List ℕ → ℕ → Option ℕ
edge_before es zero = none
edge_before es (suc i) = get_elem? es i

abbrev pub InBucket : List ℕ → ℕ → ℕ → Type 0
InBucket es i ms = (i ≤ length es) × IsAbove (edge_before es i) ms × IsAtMost (get_elem? es i) ms

count_edges_shift : (ms n : ℕ) (es : List ℕ) → count_edges ms n es ≡ n + count_edges ms 0 es
unfolding count_edges
count_edges_shift ms n [] = omega arith
count_edges_shift ms n (e ∷ es) =
    ground (arith, count_edges_shift ms (n + 1) es, count_edges_shift ms 1 es)

count_edges_cons :
    (ms e : ℕ) (es : List ℕ)
    → count_edges ms 0 (e ∷ es) ≡ (if ltb e ms then suc (count_edges ms 0 es) else 0)
unfolding count_edges
count_edges_cons ms e es = ground (arith, count_edges_shift ms 1 es)

IsAbove-suc :
    (ms e : ℕ) (es : List ℕ) (k : ℕ)
    → e < ms
    → IsAbove (edge_before es k) ms
    → IsAbove (get_elem? (e ∷ es) k) ms
IsAbove-suc ms e es zero p h = p
IsAbove-suc ms e es (suc k) p h = h

count_edges-InBucket : (ms : ℕ) (es : List ℕ) → InBucket es (count_edges ms 0 es) ms
count_edges-InBucket ms [] = unfold count_edges in (omega arith, tt, tt)
count_edges-InBucket ms (e ∷ es) = elim (Bool-cases (ltb e ms)) [
  | inl below ↦
      let (fits, above, most) = count_edges-InBucket ms es in
      rw (count_edges_cons ms e es, below)
        (omega arith, IsAbove-suc ms e es (count_edges ms 0 es) (omega tests) above, most)
  | inr stop ↦ rw (count_edges_cons ms e es, stop) (omega arith, tt, ground arith)
]

-- Every latency lies in its bucket, with inclusive upper edges; the last bucket has none.
pub bucket_index-InBucket : (ms : ℕ) → InBucket histogram_edges_ms (bucket_index ms) ms
bucket_index-InBucket ms = unfold bucket_index in count_edges-InBucket ms histogram_edges_ms

pub length-add_lists : (a b : List ℕ) → length a ≡ length b → length (add_lists a b) ≡ length a
unfolding add_lists
length-add_lists [] b h = refl
length-add_lists (x ∷ a) [] h = absurd (omega arith)
length-add_lists (x ∷ a) (y ∷ b) h = omega (arith, length-add_lists a b)

count-add_lists :
    (a b : List ℕ)
    → length a ≡ length b
    → histogram_count (add_lists a b) ≡ histogram_count a + histogram_count b
unfolding add_lists histogram_count
count-add_lists [] [] h = refl
count-add_lists [] (y ∷ b) h = absurd (omega arith)
count-add_lists (x ∷ a) [] h = absurd (omega arith)
count-add_lists (x ∷ a) (y ∷ b) h = omega (arith, count-add_lists a b)

add_lists_comm : (a b : List ℕ) → add_lists a b ≡ add_lists b a
unfolding add_lists
add_lists_comm [] [] = refl
add_lists_comm [] (y ∷ b) = refl
add_lists_comm (x ∷ a) [] = refl
add_lists_comm (x ∷ a) (y ∷ b) = ground (arith, add_lists_comm a b)

add_lists_assoc : (a b c : List ℕ) → add_lists (add_lists a b) c ≡ add_lists a (add_lists b c)
unfolding add_lists
add_lists_assoc [] b c = refl
add_lists_assoc (x ∷ a) [] [] = refl
add_lists_assoc (x ∷ a) [] (z ∷ c) = refl
add_lists_assoc (x ∷ a) (y ∷ b) [] = refl
add_lists_assoc (x ∷ a) (y ∷ b) (z ∷ c) = ground (arith, add_lists_assoc a b c)

infixl 5 ◌>>=◌
abbrev pub ◌>>=◌ : Option (List ℕ) → (List ℕ → Option (List ℕ)) → Option (List ℕ)
none >>= k = none
some a >>= k = k a

-- Two histograms merge unless one has a wrong length, and the merge keeps the length and counts
-- every observation of both once.
pub merge-count :
    (a b c : List ℕ)
    → merge_histograms a b ≡ some c
    → (length c ≡ histogram_buckets) × (histogram_count c ≡ histogram_count a + histogram_count b)
unfolding merge_histograms
merge-count a b c h = ground (arith, length-add_lists a b, count-add_lists a b)

-- Merging is commutative and associative on any lists, the rejected ones included.
pub merge_laws :
    (a b c : List ℕ)
    → (merge_histograms a b ≡ merge_histograms b a)
      × ((do ab ← merge_histograms a b; merge_histograms ab c)
          ≡ (do bc ← merge_histograms b c; merge_histograms a bc))
unfolding merge_histograms
merge_laws a b c =
    ground
      (arith, add_lists_comm a b, add_lists_assoc a b c, length-add_lists a b, length-add_lists b c)
