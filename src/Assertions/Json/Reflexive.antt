-- ===== src/Assertions/Json/Reflexive.antt =====
-- Structural equality is reflexive on values whose objects' keys differ.
use probeboard_api.Common.{
  ℕ, ◌≡◌, refl, inl, inr, true, false, ◌&&◌, ◌||◌, and-eq-true_iff, none, some, arith, Bool-cases,
  Text, text_eq, text_eq_iff,
}
use probeboard_api.Assertions.Json.{
  Json, null, bool, num, str, arr, obj, Items, nil, cons, Fields, end, field, get_field, is_nan,
  num_eq, structurally_equal, equal_items, equal_fields,
}

-- The keys of each object differ, as those of a JavaScript object do.
abbrev mutual
  pub IsProper : Json → Type 0
  IsProper null = Unit
  IsProper (bool b) = Unit
  IsProper (num n) = Unit
  IsProper (str s) = Unit
  IsProper (arr vs) = AreProper vs
  IsProper (obj fs) = HaveProper fs

  pub AreProper : Items → Type 0
  AreProper nil = Unit
  AreProper (cons v vs) = IsProper v × AreProper vs

  pub HaveProper : Fields → Type 0
  HaveProper end = Unit
  HaveProper (field k v fs) = (get_field k fs ≡ none) × IsProper v × HaveProper fs

-- Each field of one list is found in another.
abbrev Within : Fields → Fields → Type 0
Within end gs = Unit
Within (field k v fs) gs = (get_field k gs ≡ some v) × Within fs gs

Within-field :
    (fs gs : Fields) (k : Text) (v : Json)
    → get_field k fs ≡ none
    → Within fs gs
    → Within fs (field k v gs)
Within-field end gs k v m w = tt
Within-field (field j u fs) gs k v m (found, w) = elim (Bool-cases (text_eq j k)) [
  | inl same ↦ cc (rw same at m)
  | inr other ↦ (
    elim (Bool-cases (text_eq k j)) [
      | inl twist ↦ cc ((text_eq_iff k j).0 twist, (text_eq_iff j j).1 refl, other)
      | inr apart ↦ rw apart found
    ],
    Within-field fs gs k v (rw other at m) w,
  )
]

Within-self : (fs : Fields) → HaveProper fs → Within fs fs
Within-self end h = tt
Within-self (field k v fs) (fresh, proper, h) =
    (rw ((text_eq_iff k k).1 refl), Within-field fs fs k v fresh (Within-self fs h))

num_eq_self : (n : ℕ) → num_eq n n || (is_nan n && is_nan n) ≡ true
unfolding num_eq
num_eq_self n = ground arith

mutual
  unfolding structurally_equal

  equal_refl : (v : Json) → IsProper v → structurally_equal v v ≡ true
  equal_refl null h = refl
  equal_refl (bool true) h = refl
  equal_refl (bool false) h = refl
  equal_refl (num n) h = num_eq_self n
  equal_refl (str s) h = (text_eq_iff s s).1 refl
  equal_refl (arr vs) h = (and-eq-true_iff _ _).1 (ground arith, equal_items_refl vs h)
  equal_refl (obj fs) h =
      (and-eq-true_iff _ _).1 (ground arith, equal_fields_refl fs fs h (Within-self fs h))

  equal_items_refl : (vs : Items) → AreProper vs → equal_items vs vs ≡ true
  equal_items_refl nil h = refl
  equal_items_refl (cons v vs) (p, h) = rw (equal_refl v p) (equal_items_refl vs h)

  equal_fields_refl : (fs gs : Fields) → HaveProper fs → Within fs gs → equal_fields fs gs ≡ true
  equal_fields_refl end gs h w = refl
  equal_fields_refl (field k v fs) gs (fresh, p, h) (found, w) =
      rw (found, equal_refl v p) (equal_fields_refl fs gs h w)

-- Every JSON value equals itself, NaN and objects included.
pub structurally_equal_refl : (v : Json) → IsProper v → structurally_equal v v ≡ true
structurally_equal_refl v h = equal_refl v h
