-- ===== src/Storage/Partitions/Laws.antt =====
-- What a pass leaves in the catalogue.
use probeboard_api.Common.{
  ℕ, ◌≡◌, refl, sym, ap, ◌∙◌, ◌⊎◌, inl, inr, Bool, true, false, ◌||◌, none, some, List, [], ◌∷◌,
  ◌++◌, append_assoc, arith, if◌then◌else◌, Bool-cases, All, All-append, Text, text_eq_iff, has,
}
use mathlib.Core.List.{Memᴰ}
use probeboard_api.Storage.Periods.{
  Period, PartitionFamily, partition_families, periods_covering, partition_name,
}
use probeboard_api.Storage.Partitions.{
  Partition, Ensured, names, made, creating, ensure_period, ensure_periods, end_for,
  ensure_families, ensure_range,
}

-- No name is among the old ones, nor twice among the new.
abbrev pub AreNew : List Text → List Text → Type 0
AreNew [] old = Unit
AreNew (n ∷ rest) old = (has (rest ++ old) n ≡ false) × AreNew rest old

names_append : (xs ys : List Partition) → names (xs ++ ys) ≡ names xs ++ names ys
names_append [] ys = refl
names_append (x ∷ xs) ys = ap (λ (t : List Text). x.name ∷ t) (names_append xs ys)

AreNew-append :
    (ys xs old : List Text) → AreNew ys (xs ++ old) → AreNew xs old → AreNew (ys ++ xs) old
AreNew-append [] xs old h k = k
AreNew-append (y ∷ ys) xs old (new, h) k =
    (rw (append_assoc ys xs old) new, AreNew-append ys xs old h k)

has_append : (xs ys : List Text) (n : Text) → has ys n ≡ true → has (xs ++ ys) n ≡ true
has_append [] ys n e = e
has_append (x ∷ xs) ys n e = ground (arith, has_append xs ys n e)

-- Every period has a relation of its name.
abbrev pub IsCovered : PartitionFamily → List Period → List Text → Type 0
IsCovered family periods relations =
    All (λ (p : Period). has relations (partition_name family p.suffix) ≡ true) periods

module _ (P : Partition → Type 0) where
  -- What was there stays, after the partitions created, which have new names and for which P holds.
  abbrev pub HasGrown : Ensured → Ensured → Type 0
  HasGrown s t =
      (added : List Partition) × (t.partitions ≡ added ++ s.partitions)
      × (t.relations ≡ names added ++ s.relations)
      × (t.created ≡ names added ++ s.created)
      × AreNew (names added) s.relations
      × All P added

  HasGrown-refl : (s : Ensured) → HasGrown s s
  HasGrown-refl s = ([], refl, refl, refl, tt, tt)

  joined :
      (xs ys : List Partition) (r s t : List Text)
      → s ≡ names xs ++ r
      → t ≡ names ys ++ s
      → t ≡ names (ys ++ xs) ++ r
  joined xs ys r s t p q =
      q
      ∙ ap (λ (l : List Text). names ys ++ l) p
      ∙ sym (append_assoc (names ys) (names xs) r)
      ∙ ap (λ (l : List Text). l ++ r) (sym (names_append ys xs))

  HasGrown-trans : (r s t : Ensured) → HasGrown r s → HasGrown s t → HasGrown r t
  HasGrown-trans r s t (xs, p, q, c, new, h) (ys, u, v, d, fresh, k) = (
    ys ++ xs,
    u ∙ ap (λ (l : List Partition). ys ++ l) p ∙ sym (append_assoc ys xs r.partitions),
    joined xs ys r.relations s.relations t.relations q v,
    joined xs ys r.created s.created t.created c d,
    rw (names_append ys xs) (AreNew-append (names ys) (names xs) r.relations (rw q at fresh) new),
    All-append P ys xs k h,
  )

  -- A name that is there stays.
  HasGrown-has :
      (s t : Ensured) (n : Text)
      → HasGrown s t
      → has s.relations n ≡ true
      → has t.relations n ≡ true
  HasGrown-has s t n (added, p, q, c, new, h) e =
      ap (λ (l : List Text). has l n) q ∙ has_append (names added) s.relations n e

  -- What one period comes to.
  ensure_period-HasGrown :
      (family : PartitionFamily) (p : Period) (s : Ensured)
      → P (made family p)
      → HasGrown s (ensure_period family p s)
        × (has (ensure_period family p s).relations (partition_name family p.suffix) ≡ true)
  unfolding ensure_period
  ensure_period-HasGrown family p s h = go (has s.relations name) refl
    where
      name : Text
      name = partition_name family p.suffix

      result : Bool → Ensured
      result b = if b then s else creating s (made family p)

      go :
          (b : Bool)
          → has s.relations name ≡ b
          → HasGrown s (result b) × (has (result b).relations name ≡ true)
      go true e = (HasGrown-refl s, e)
      go false e = (
        (made family p ∷ [], refl, refl, refl, (e, tt), (h, tt)),
        ap (λ b. b || has s.relations name) ((text_eq_iff name name).1 refl),
      )

  ensure_periods-HasGrown :
      (family : PartitionFamily) (periods : List Period) (s : Ensured)
      → ((p : Period) → Memᴰ p periods → P (made family p))
      → HasGrown s (ensure_periods family periods s)
        × IsCovered family periods (ensure_periods family periods s).relations
  unfolding ensure_periods
  ensure_periods-HasGrown family [] s h = (HasGrown-refl s, tt)
  ensure_periods-HasGrown family (p ∷ periods) s h =
      let next : Ensured = ensure_period family p s in
      let last : Ensured = ensure_periods family periods next in
      let (step, named) = ensure_period-HasGrown family p s (h p (Memᴰ.head refl)) in
      let (steps, covered) =
        ensure_periods-HasGrown family periods next (λ q m. h q (Memᴰ.tail m)) in
      (
        HasGrown-trans s next last step steps,
        (HasGrown-has next last (partition_name family p.suffix) steps named, covered),
      )

  IsCovered-later :
      (family : PartitionFamily) (periods : List Period) (s t : Ensured)
      → HasGrown s t
      → IsCovered family periods s.relations
      → IsCovered family periods t.relations
  IsCovered-later family [] s t g c = tt
  IsCovered-later family (p ∷ periods) s t g (n, c) = (
    HasGrown-has s t (partition_name family p.suffix) g n,
    IsCovered-later family periods s t g c,
  )

module _ (from daily_to monthly_to : ℕ) where
  abbrev pub range_of : PartitionFamily → List Period
  range_of f = periods_covering f.kind from (end_for f.kind daily_to monthly_to)

  -- Each period of the range of each family has a relation of its name.
  abbrev pub AreCovered : List PartitionFamily → List Text → Type 0
  AreCovered families relations =
      All (λ (f : PartitionFamily). IsCovered f (range_of f) relations) families

  -- A partition of a family's table for a period of the family's range, with the period's bounds.
  abbrev pub IsOfRange : Partition → Type 0
  IsOfRange q =
      (f : PartitionFamily) × (p : Period) × Memᴰ f partition_families
      × Memᴰ p (range_of f)
      × (q.parent ≡ f.parent)
      × (q.name ≡ partition_name f p.suffix)
      × (q.from ≡ p.from)
      × (q.to ≡ p.to)

  ensure_families-HasGrown :
      (families : List PartitionFamily) (s : Ensured)
      → ((f : PartitionFamily) → Memᴰ f families → Memᴰ f partition_families)
      → HasGrown IsOfRange s (ensure_families from daily_to monthly_to families s)
        × AreCovered families (ensure_families from daily_to monthly_to families s).relations
  unfolding ensure_families
  ensure_families-HasGrown [] s h = (HasGrown-refl IsOfRange s, tt)
  ensure_families-HasGrown (f ∷ families) s h =
      let next : Ensured = ensure_periods f (range_of f) s in
      let last : Ensured = ensure_families from daily_to monthly_to families next in
      let (step, covered) =
        ensure_periods-HasGrown IsOfRange f (range_of f) s
          (λ p m. (f, p, h f (Memᴰ.head refl), m, refl, refl, refl, refl)) in
      let (steps, rest) = ensure_families-HasGrown families next (λ g m. h g (Memᴰ.tail m)) in
      (
        HasGrown-trans IsOfRange s next last step steps,
        (IsCovered-later IsOfRange f (range_of f) next last steps covered, rest),
      )

  -- A pass that neither gets nor waits for the lock does nothing. Any other leaves each period of
  -- each family's range with a relation of its name, keeps the relations and the partitions there
  -- were, and creates what it says: partitions whose names no relation had, each attached to its
  -- family's table with the bounds of a period of the family's range. A relation that has the name
  -- already stays as it is, attached or not.
  pub ensure_range_rules :
      (wait got : Bool) (partitions : List Partition) (relations : List Text)
      → ((wait || got ≡ false)
          × (ensure_range from daily_to monthly_to wait got partitions relations ≡ none))
        ⊎ ((wait || got ≡ true)
            × ((t : Ensured) × (ensure_range from daily_to monthly_to wait got partitions relations
                  ≡ some t)
                × AreCovered partition_families t.relations
                × HasGrown IsOfRange
                    (record { partitions = partitions; relations = relations; created = [] })
                    t))
  unfolding ensure_range
  ensure_range_rules wait got partitions relations = elim (Bool-cases (wait || got)) [
    | inr skip ↦ inl (skip, rw skip refl)
    | inl run ↦
        let start : Ensured = record {
          partitions = partitions;
          relations = relations;
          created = [];
        } in
        let (grown, covered) = ensure_families-HasGrown partition_families start (λ f m. m) in
        inr (
          run,
          (
            ensure_families from daily_to monthly_to partition_families start,
            rw run refl,
            covered,
            grown,
          ),
        )
  ]
