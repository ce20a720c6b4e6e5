-- ===== src/Assertions/Json/Equality.antt =====
-- No path tells structurally equal values apart.
use probeboard_api.Common.{
  ℕ, zero, suc, ◌≡◌, refl, inl, inr, true, false, and-eq-true_iff, Option, none, some, List, [],
  ◌∷◌, arith, ==_iff, Bool-cases, Text, text_eq, text_eq_iff,
}
use mathlib.Core.Path.{subst}
use probeboard_api.Assertions.JsonPath.{Segment, name, index}
use probeboard_api.Assertions.Json.{
  Json, null, bool, num, str, arr, obj, Items, nil, cons, Fields, end, field, get_field, get_item,
  step_into, walk_segments, count_items, present_and, structurally_equal, equal_items, equal_fields,
  ◌>>=◌, count_fields,
}
use probeboard_api.Assertions.Json.Keys.{present, AllIn, AreFresh, count_fields-lt}
use probeboard_api.Assertions.Json.Reflexive.{IsProper, AreProper, HaveProper}

-- Both reads find equal values, or both miss.
abbrev pub Reads : Option Json → Option Json → Type 0
Reads none none = Unit
Reads none (some w) = ⊥
Reads (some v) none = ⊥
Reads (some v) (some w) = structurally_equal v w ≡ true

-- What a read finds is proper.
abbrev Finds : Option Json → Type 0
Finds none = Unit
Finds (some v) = IsProper v

Reads-present :
    (v : Json) (o : Option Json) → present_and (structurally_equal v) o ≡ true → Reads (some v) o
Reads-present v none h = cc
Reads-present v (some w) h = h

Reads-absent : (o : Option Json) → present o ≡ false → Reads none o
Reads-absent none h = tt
Reads-absent (some w) h = cc

HaveProper-AreFresh : (fs : Fields) → HaveProper fs → AreFresh fs
HaveProper-AreFresh end h = tt
HaveProper-AreFresh (field k v fs) (new, p, h) = (new, HaveProper-AreFresh fs h)

equal_fields-AllIn : (fs gs : Fields) → equal_fields fs gs ≡ true → AllIn fs gs
unfolding structurally_equal
equal_fields-AllIn end gs h = tt
equal_fields-AllIn (field k v fs) gs h =
    let (here, later) = (and-eq-true_iff _ _).0 h in
    (known (get_field k gs) here, equal_fields-AllIn fs gs later)
  where
    known : (o : Option Json) → present_and (structurally_equal v) o ≡ true → present o ≡ true
    known none e = cc
    known (some w) e = refl

-- A key that is found in the first list.
equal_fields-get :
    (fs gs : Fields) (k : Text)
    → equal_fields fs gs ≡ true
    → (get_field k fs ≡ none → Reads none (get_field k gs))
    → Reads (get_field k fs) (get_field k gs)
unfolding structurally_equal
equal_fields-get end gs k h missing = missing refl
equal_fields-get (field j v fs) gs k h missing =
    let (here, later) = (and-eq-true_iff _ _).0 h in
    elim (Bool-cases (text_eq j k)) [
      | inl same ↦
          let e : j ≡ k = (text_eq_iff j k).0 same in
          rw same (
            Reads-present v (get_field k gs)
              (subst (λ t. present_and (structurally_equal v) (get_field t gs) ≡ true) e here))
      | inr other ↦ rw other (equal_fields-get fs gs k later (λ m. missing (rw other m)))
    ]

-- As many keys: one that the first list misses, the second misses too.
equal_fields-missing :
    (fs gs : Fields) (k : Text)
    → HaveProper fs
    → equal_fields fs gs ≡ true
    → count_fields fs ≡ count_fields gs
    → get_field k fs ≡ none
    → Reads none (get_field k gs)
equal_fields-missing fs gs k p h sizes m = elim (Bool-cases (present (get_field k gs))) [
  | inr absent ↦ Reads-absent (get_field k gs) absent
  | inl there ↦
      let more =
        count_fields-lt fs gs k (HaveProper-AreFresh fs p) (equal_fields-AllIn fs gs h) m there in
      absurd (omega (arith, more, sizes))
]

equal_items-get :
    (as' bs : Items) (i : ℕ)
    → equal_items as' bs ≡ true
    → count_items as' ≡ count_items bs
    → Reads (get_item as' i) (get_item bs i)
unfolding structurally_equal
equal_items-get nil nil i h n = tt
equal_items-get nil (cons b bs) i h n = cc
equal_items-get (cons a as') nil i h n = cc
equal_items-get (cons a as') (cons b bs) zero h n = ((and-eq-true_iff _ _).0 h).0
equal_items-get (cons a as') (cons b bs) (suc i) h n =
    equal_items-get as' bs i ((and-eq-true_iff _ _).0 h).1 (omega arith)

step_into-Reads :
    (a b : Json) (s : Segment)
    → IsProper a
    → structurally_equal a b ≡ true
    → Reads (step_into a s) (step_into b s)
unfolding structurally_equal step_into
step_into-Reads (obj fs) (obj gs) (name k) p h =
    let (sizes, fields) = (and-eq-true_iff _ _).0 h in
    equal_fields-get fs gs k fields (equal_fields-missing fs gs k p fields ((==_iff _ _).0 sizes))
step_into-Reads (arr as') (arr bs) (index i) p h =
    let (sizes, items) = (and-eq-true_iff _ _).0 h in
    equal_items-get as' bs i items ((==_iff _ _).0 sizes)
step_into-Reads (obj fs) (obj gs) (index i) p h = tt
step_into-Reads (arr as') (arr bs) (name k) p h = tt
step_into-Reads null null s p h = tt
step_into-Reads (bool x) (bool y) s p h = tt
step_into-Reads (num x) (num y) s p h = tt
step_into-Reads (str x) (str y) s p h = tt
step_into-Reads null (bool y) s p h = cc
step_into-Reads null (num y) s p h = cc
step_into-Reads null (str y) s p h = cc
step_into-Reads null (arr y) s p h = cc
step_into-Reads null (obj y) s p h = cc
step_into-Reads (bool x) null s p h = cc
step_into-Reads (bool x) (num y) s p h = cc
step_into-Reads (bool x) (str y) s p h = cc
step_into-Reads (bool x) (arr y) s p h = cc
step_into-Reads (bool x) (obj y) s p h = cc
step_into-Reads (num x) null s p h = cc
step_into-Reads (num x) (bool y) s p h = cc
step_into-Reads (num x) (str y) s p h = cc
step_into-Reads (num x) (arr y) s p h = cc
step_into-Reads (num x) (obj y) s p h = cc
step_into-Reads (str x) null s p h = cc
step_into-Reads (str x) (bool y) s p h = cc
step_into-Reads (str x) (num y) s p h = cc
step_into-Reads (str x) (arr y) s p h = cc
step_into-Reads (str x) (obj y) s p h = cc
step_into-Reads (arr x) null s p h = cc
step_into-Reads (arr x) (bool y) s p h = cc
step_into-Reads (arr x) (num y) s p h = cc
step_into-Reads (arr x) (str y) s p h = cc
step_into-Reads (arr x) (obj y) s p h = cc
step_into-Reads (obj x) null s p h = cc
step_into-Reads (obj x) (bool y) s p h = cc
step_into-Reads (obj x) (num y) s p h = cc
step_into-Reads (obj x) (str y) s p h = cc
step_into-Reads (obj x) (arr y) s p h = cc

get_field-Finds : (k : Text) (fs : Fields) → HaveProper fs → Finds (get_field k fs)
get_field-Finds k end h = tt
get_field-Finds k (field j v fs) (new, p, h) = elim (Bool-cases (text_eq j k)) [
  | inl same ↦ rw same p
  | inr other ↦ rw other (get_field-Finds k fs h)
]

get_item-Finds : (vs : Items) (i : ℕ) → AreProper vs → Finds (get_item vs i)
get_item-Finds nil i h = tt
get_item-Finds (cons v vs) zero (p, h) = p
get_item-Finds (cons v vs) (suc i) (p, h) = get_item-Finds vs i h

step_into-Finds : (a : Json) (s : Segment) → IsProper a → Finds (step_into a s)
unfolding step_into
step_into-Finds (obj fs) (name k) p = get_field-Finds k fs p
step_into-Finds (arr vs) (index i) p = get_item-Finds vs i p
step_into-Finds (obj fs) (index i) p = tt
step_into-Finds (arr vs) (name k) p = tt
step_into-Finds null s p = tt
step_into-Finds (bool b) s p = tt
step_into-Finds (num n) s p = tt
step_into-Finds (str t) s p = tt

-- No path tells two structurally equal values apart: it finds something in both or in neither, and
-- the values found are structurally equal. The keys of each object in the first value differ.
pub walk_segments-Reads :
    (segments : List Segment) (a b : Json)
    → IsProper a
    → structurally_equal a b ≡ true
    → Reads (walk_segments segments a) (walk_segments segments b)
unfolding walk_segments
walk_segments-Reads [] a b p h = h
walk_segments-Reads (s ∷ segments) a b p h =
    go (walk_segments-Reads segments) (step_into a s) (step_into b s) (step_into-Finds a s p)
      (step_into-Reads a b s p h)
  where
    go :
        ((v w : Json)
          → IsProper v
          → structurally_equal v w ≡ true
          → Reads (walk_segments segments v) (walk_segments segments w))
        → (x y : Option Json) → Finds x
        → Reads x y
        → Reads (x >>= walk_segments segments) (y >>= walk_segments segments)
    go ih none none p r = tt
    go ih none (some w) p r = absurd r
    go ih (some v) none p r = absurd r
    go ih (some v) (some w) p r = ih v w p r
