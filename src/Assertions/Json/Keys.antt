-- ===== src/Assertions/Json/Keys.antt =====
-- Objects with as many keys: if those of one are all keys of the other, the other has no more.
use probeboard_api.Common.{
  suc, ◌<◌, ◌≡◌, refl, sym, ap, ◌∙◌, inl, inr, Bool, true, false, if◌then◌else◌, Option, none, some,
  arith, Bool-cases, Text, text_eq, text_eq_iff,
}
use probeboard_api.Assertions.Json.{Json, Fields, end, field, get_field, count_fields}

abbrev pub present : Option Json → Bool
present none = false
present (some v) = true

-- Every key of one object is a key of another.
abbrev pub AllIn : Fields → Fields → Type 0
AllIn end gs = Unit
AllIn (field k v fs) gs = (present (get_field k gs) ≡ true) × AllIn fs gs

-- No key comes twice.
abbrev pub AreFresh : Fields → Type 0
AreFresh end = Unit
AreFresh (field k v fs) = (get_field k fs ≡ none) × AreFresh fs

abbrev remove : Text → Fields → Fields
remove k end = end
remove k (field j v fs) = if text_eq j k then fs else field j v (remove k fs)

text_eq-false_sym : (s t : Text) → text_eq s t ≡ false → text_eq t s ≡ false
text_eq-false_sym s t h = elim (Bool-cases (text_eq t s)) [
  | inr other ↦ other
  | inl same ↦
      let e : t ≡ s = (text_eq_iff t s).0 same in
      let clash : true ≡ false = sym ((text_eq_iff s t).1 (sym e)) ∙ h in cc
]

get_field-remove :
    (j k : Text) (gs : Fields) → text_eq j k ≡ false → get_field k (remove j gs) ≡ get_field k gs
get_field-remove j k end h = refl
get_field-remove j k (field i v gs) h = elim (Bool-cases (text_eq i j)) [
  | inl same ↦ let e : i ≡ j = (text_eq_iff i j).0 same in rw (same, e, h) refl
  | inr other ↦ rw (other, get_field-remove j k gs h) refl
]

count_fields-remove :
    (j : Text) (gs : Fields)
    → present (get_field j gs) ≡ true
    → count_fields gs ≡ suc (count_fields (remove j gs))
count_fields-remove j end h = cc
count_fields-remove j (field i v gs) h = elim (Bool-cases (text_eq i j)) [
  | inl same ↦ rw same refl
  | inr other ↦ rw other (ap suc (count_fields-remove j gs (rw other at h)))
]

AllIn-remove :
    (j : Text) (fs gs : Fields) → get_field j fs ≡ none → AllIn fs gs → AllIn fs (remove j gs)
AllIn-remove j end gs h w = tt
AllIn-remove j (field k v fs) gs h (found, w) = elim (Bool-cases (text_eq k j)) [
  | inl same ↦ cc (rw same at h)
  | inr other ↦ (
    rw (get_field-remove j k gs (text_eq-false_sym k j other)) found,
    AllIn-remove j fs gs (rw other at h) w,
  )
]

-- A key that only the other object has is one more.
pub count_fields-lt :
    (fs gs : Fields) (k : Text)
    → AreFresh fs
    → AllIn fs gs
    → get_field k fs ≡ none
    → present (get_field k gs) ≡ true
    → count_fields fs < count_fields gs
count_fields-lt end gs k fresh w m h = let one = count_fields-remove k gs h in omega (arith, one)
count_fields-lt (field j v fs) gs k (new, fresh) (found, w) m h = elim (Bool-cases (text_eq j k)) [
  | inl same ↦ cc (rw same at m)
  | inr other ↦
      let one = count_fields-remove j gs found in
      let fewer =
        count_fields-lt fs (remove j gs) k fresh (AllIn-remove j fs gs new w) (rw other at m)
          (rw (get_field-remove j k gs other) h) in
      omega (arith, one, fewer)
]
