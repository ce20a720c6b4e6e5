-- ===== src/Headers/Rows/Merge.antt =====
-- The headers of an endpoint override those of its service, by name and whatever the case.
use probeboard_api.Common.{
  ◌≡◌, refl, sym, ap, ◌∙◌, ◌⊎◌, inl, inr, true, false, Option, none, some, List, [], ◌∷◌,
  if◌then◌else◌, Bool-cases, Text, text_eq, text_eq_iff, to_lower_case,
}
use probeboard_api.Probing.FailureClasses.{or_else}
use probeboard_api.Headers.Rows.{
  Header, Entries, map_set, map_get, set_headers, values, merge_header_rows,
}

abbrev pub lower_name : Header → Text
lower_name h = to_lower_case h.name

abbrev pub if_named : Text → Header → Option Header
if_named key h = if text_eq (lower_name h) key then some h else none

-- The last header of a name, in lower case.
abbrev pub effective : Text → List Header → Option Header
effective key [] = none
effective key (h ∷ headers) = or_else (effective key headers) (if_named key h)

abbrev pub HasDistinctNames : List Header → Type 0
HasDistinctNames [] = Unit
HasDistinctNames (h ∷ headers) =
    (effective (lower_name h) headers ≡ none) × HasDistinctNames headers

-- Each entry stands under its name, and once.
abbrev IsMap : Entries → Type 0
IsMap [] = Unit
IsMap ((k, h) ∷ entries) = (k ≡ lower_name h) × (map_get k entries ≡ none) × IsMap entries

map_get-map_set :
    (j k : Text) (h : Header) (m : Entries)
    → map_get j (map_set k h m) ≡ (if text_eq k j then some h else map_get j m)
unfolding map_get map_set
map_get-map_set j k h [] = refl
map_get-map_set j k h ((l, g) ∷ m) = elim (Bool-cases (text_eq l k)) [
  | inl same ↦
      let e : l ≡ k = (text_eq_iff l k).0 same in
      rw same (elim (Bool-cases (text_eq k j)) [
        | inl here ↦ rw (e, here) refl
        | inr there ↦ rw (e, there) refl
      ])
  | inr other ↦ rw other (elim (Bool-cases (text_eq l j)) [
    | inl here ↦
        let e : l ≡ j = (text_eq_iff l j).0 here in
        elim (Bool-cases (text_eq k j)) [
          | inl also ↦
              let q : l ≡ k = e ∙ sym ((text_eq_iff k j).0 also) in
              let clash = (text_eq_iff l k).1 q in cc (clash, other)
          | inr not' ↦ rw (here, not') refl
        ]
    | inr there ↦ rw there (map_get-map_set j k h m)
  ])
]

map_set-IsMap : (h : Header) (m : Entries) → IsMap m → IsMap (map_set (lower_name h) h m)
unfolding map_set map_get
map_set-IsMap h [] i = (refl, refl, tt)
map_set-IsMap h ((l, g) ∷ m) (name, fresh, i) = elim (Bool-cases (text_eq l (lower_name h))) [
  | inl same ↦ rw same ((text_eq_iff l (lower_name h)).0 same, fresh, i)
  | inr other ↦ rw other (
    name,
    map_get-map_set l (lower_name h) h m
        ∙ absent (Bool-cases (text_eq (lower_name h) l)) other fresh,
    map_set-IsMap h m i,
  )
]
  where
    absent :
        (text_eq (lower_name h) l ≡ true) ⊎ (text_eq (lower_name h) l ≡ false)
        → text_eq l (lower_name h) ≡ false
        → map_get l m ≡ none
        → (if text_eq (lower_name h) l then some h else map_get l m) ≡ none
    absent (inl e) o f =
        let back = (text_eq_iff l (lower_name h)).1 (sym ((text_eq_iff (lower_name h) l).0 e)) in
        cc (back, o)
    absent (inr e) o f = rw e f

set_headers-IsMap : (hs : List Header) (m : Entries) → IsMap m → IsMap (set_headers hs m)
unfolding set_headers
set_headers-IsMap [] m i = i
set_headers-IsMap (h ∷ hs) m i =
    set_headers-IsMap hs (map_set (lower_name h) h m) (map_set-IsMap h m i)

or_else_assoc : (a b c : Option Header) → or_else a (or_else b c) ≡ or_else (or_else a b) c
or_else_assoc none b c = refl
or_else_assoc (some a) b c = refl

or_else-none : (a : Option Header) → or_else a none ≡ a
or_else-none none = refl
or_else-none (some a) = refl

pub map_get-set_headers :
    (j : Text) (hs : List Header) (m : Entries)
    → map_get j (set_headers hs m) ≡ or_else (effective j hs) (map_get j m)
unfolding set_headers
map_get-set_headers j [] m = refl
map_get-set_headers j (h ∷ hs) m =
    map_get-set_headers j hs (map_set (lower_name h) h m)
    ∙ (rw
        (
          map_get-map_set j (lower_name h) h m,
          ← or_else_assoc (effective j hs) (if_named j h) (map_get j m),
        )
        (ap (or_else (effective j hs)) step))
  where
    step :
        (if text_eq (lower_name h) j then some h else map_get j m)
        ≡ or_else (if_named j h) (map_get j m)
    step = elim (Bool-cases (text_eq (lower_name h) j)) [ inl e ↦ rw e refl | inr e ↦ rw e refl ]

effective-values : (j : Text) (m : Entries) → IsMap m → effective j (values m) ≡ map_get j m
unfolding map_get
effective-values j [] i = refl
effective-values j ((k, h) ∷ m) (name, fresh, i) = elim (Bool-cases (text_eq k j)) [
  | inl here ↦
      let e : k ≡ j = (text_eq_iff k j).0 here in
      let none' : effective j (values m) ≡ none =
        effective-values j m i ∙ ap (λ t. map_get t m) (sym e) ∙ fresh in
      rw (none', ← name, here) refl
  | inr there ↦ rw (effective-values j m i, ← name, there) (or_else-none (map_get j m))
]

values-HasDistinctNames : (m : Entries) → IsMap m → HasDistinctNames (values m)
values-HasDistinctNames [] i = tt
values-HasDistinctNames ((k, h) ∷ m) (name, fresh, i) = (
  effective-values (lower_name h) m i ∙ ap (λ t. map_get t m) (sym name) ∙ fresh,
  values-HasDistinctNames m i,
)

-- The merge has each name once, whatever the case, and under each name the endpoint's header if it
-- has one, else the service's.
pub merge_header_rows_rules :
    (service_headers endpoint_headers : List Header)
    → let merged = merge_header_rows service_headers endpoint_headers in
      HasDistinctNames merged
      × ((key : Text)
          → effective key merged
            ≡ or_else (effective key endpoint_headers) (effective key service_headers))
unfolding merge_header_rows
merge_header_rows_rules s e =
    let first = set_headers-IsMap s [] tt in
    let both = set_headers-IsMap e (set_headers s []) first in
    (
      values-HasDistinctNames (set_headers e (set_headers s [])) both,
      λ key.
          effective-values key (set_headers e (set_headers s [])) both
          ∙ map_get-set_headers key e (set_headers s [])
          ∙ ap (or_else (effective key e))
              (map_get-set_headers key s [] ∙ unfold map_get in or_else-none (effective key s)),
    )
