-- ===== src/Storage/Expiry.antt =====
-- worker/storage/services/retention.service.ts: the partitions of a family that are past their
-- retention.
use probeboard_api.Common.{
  ℕ, ◌+◌, ◌≤◌, ◌≡◌, refl, sym, ap, ◌∙◌, ◌⊎◌, inl, inr, Bool, true, false, not, Option, none, some,
  List, [], ◌∷◌, ◌++◌, arith, leb, if◌then◌else◌, leb→le, Bool-cases, Option-cases, length, All,
  Text, codes, text_eq, starts_with,
}
use mathlib.Core.Path.{subst}
use mathlib.Core.List.{Memᴰ}
use probeboard_api.Storage.Periods.{PartitionFamily, period_from_suffix, next_period_start, drop}

pub record RetentionConfig : Type 0 where
  pub retention_raw_days : ℕ
  pub retention_claim_log_days : ℕ
  pub retention_m1_days : ℕ
  pub retention_h1_days : ℕ
  pub maintenance_lock_timeout_ms : ℕ

pub record Expired : Type 0 where
  pub name : Text
  pub lo : ℕ
  pub hi : ℕ

abbrev pub days_for : RetentionConfig → Text → Option ℕ
days_for cfg parent =
    if text_eq parent (codes "probe_results")
    then some cfg.retention_raw_days
    else if text_eq parent (codes "claim_log")
    then some cfg.retention_claim_log_days
    else if text_eq parent (codes "probe_stats_m1")
    then some cfg.retention_m1_days
    else if text_eq parent (codes "probe_stats_h1")
    then some cfg.retention_h1_days
    else none

-- The sort of `classify`, which keeps the order of equal keys.
abbrev pub insert_by_lo : Expired → List Expired → List Expired
insert_by_lo e [] = e ∷ []
insert_by_lo e (f ∷ rest) =
    let later = insert_by_lo e rest in if leb e.lo f.lo then e ∷ f ∷ rest else f ∷ later

abbrev pub sort_by_lo : List Expired → List Expired
sort_by_lo [] = []
sort_by_lo (e ∷ rest) = insert_by_lo e (sort_by_lo rest)

abbrev pub if_over : ℕ → Text → ℕ → ℕ → Option Expired
if_over cutoff name lo hi =
    if leb hi cutoff then some (record { name = name; lo = lo; hi = hi }) else none

abbrev pub expired_from : PartitionFamily → Text → ℕ → Option ℕ → Option Expired
expired_from family name cutoff none = none
expired_from family name cutoff (some lo) =
    if_over cutoff name lo (next_period_start family.kind lo)

-- One turn of the loop of `classify`.
abbrev pub as_expired : PartitionFamily → ℕ → Text → Option Expired
as_expired family cutoff name =
    if not (starts_with name (family.parent ++ codes "_p"))
    then none
    else expired_from family name cutoff
        (period_from_suffix family.kind (drop (length family.parent + 2) name))

abbrev pub or_skip : Option Expired → List Expired → List Expired
or_skip none rest = rest
or_skip (some e) rest = e ∷ rest

abbrev pub expired_of : PartitionFamily → ℕ → List Text → List Expired
expired_of family cutoff [] = []
expired_of family cutoff (name ∷ names) =
    or_skip (as_expired family cutoff name) (expired_of family cutoff names)

abbrev pub classify : PartitionFamily → List Text → ℕ → List Expired
classify family names cutoff = sort_by_lo (expired_of family cutoff names)

-- An entry of a list of names whose whole period has ended by the cutoff.
abbrev pub IsPast : PartitionFamily → ℕ → List Text → Expired → Type 0
IsPast family cutoff names e =
    Memᴰ e.name names
    × (starts_with e.name (family.parent ++ codes "_p") ≡ true)
    × (period_from_suffix family.kind (drop (length family.parent + 2) e.name) ≡ some e.lo)
    × (e.hi ≡ next_period_start family.kind e.lo)
    × (e.hi ≤ cutoff)

module _ (P : Expired → Type 0) where
  All-insert_by_lo : (e : Expired) (es : List Expired) → P e → All P es → All P (insert_by_lo e es)
  All-insert_by_lo e [] p h = (p, tt)
  All-insert_by_lo e (f ∷ rest) p (q, h) = elim (Bool-cases (leb e.lo f.lo)) [
    | inl le ↦ rw le (p, (q, h))
    | inr gt ↦ rw gt (q, All-insert_by_lo e rest p h)
  ]

  All-sort_by_lo : (es : List Expired) → All P es → All P (sort_by_lo es)
  All-sort_by_lo [] h = tt
  All-sort_by_lo (e ∷ rest) (p, h) = All-insert_by_lo e (sort_by_lo rest) p (All-sort_by_lo rest h)

IsPast-tail :
    (family : PartitionFamily) (cutoff : ℕ) (name : Text) (names : List Text) (es : List Expired)
    → All (IsPast family cutoff names) es
    → All (IsPast family cutoff (name ∷ names)) es
IsPast-tail family cutoff name names [] h = tt
IsPast-tail family cutoff name names (e ∷ es) ((m, s, p, n, l), h) =
    ((Memᴰ.tail m, s, p, n, l), IsPast-tail family cutoff name names es h)

as_expired-IsPast :
    (family : PartitionFamily) (cutoff : ℕ) (name : Text) (names : List Text) (e : Expired)
    → as_expired family cutoff name ≡ some e
    → IsPast family cutoff (name ∷ names) e
as_expired-IsPast family cutoff name names e k =
    go (Bool-cases (starts_with name (family.parent ++ codes "_p")))
      (Option-cases (period_from_suffix family.kind (drop (length family.parent + 2) name))) k
  where
    over :
        (lo : ℕ)
        → starts_with name (family.parent ++ codes "_p") ≡ true
        → period_from_suffix family.kind (drop (length family.parent + 2) name) ≡ some lo
        → if_over cutoff name lo (next_period_start family.kind lo) ≡ some e
        → IsPast family cutoff (name ∷ names) e
    over lo s p q = elim (Bool-cases (leb (next_period_start family.kind lo) cutoff)) [
      | inl le ↦
          let same : record { name = name; lo = lo; hi = next_period_start family.kind lo } ≡ e =
            ground (arith, q, le) in
          subst (IsPast family cutoff (name ∷ names)) same
            (Memᴰ.head refl, s, p, refl, leb→le _ _ le)
      | inr gt ↦ ground (arith, q, gt)
    ]

    starts :
        (b : Bool)
        → starts_with name (family.parent ++ codes "_p") ≡ b
        → as_expired family cutoff name ≡ (
            if not b
            then none
            else expired_from family name cutoff
                (period_from_suffix family.kind (drop (length family.parent + 2) name)))
    starts b s = rw s refl

    go :
        (starts_with name (family.parent ++ codes "_p") ≡ true)
          ⊎ (starts_with name (family.parent ++ codes "_p") ≡ false)
        → (period_from_suffix family.kind (drop (length family.parent + 2) name) ≡ none)
          ⊎ ((lo : ℕ) × (period_from_suffix family.kind (drop (length family.parent + 2) name)
                ≡ some lo))
        → as_expired family cutoff name ≡ some e
        → IsPast family cutoff (name ∷ names) e
    go (inr s) o q = let clash : none ≡ some e = sym (starts false s) ∙ q in ground (arith, clash)
    go (inl s) (inl p) q =
        let clash : none ≡ some e =
          sym (starts true s ∙ ap (expired_from family name cutoff) p) ∙ q in
        ground (arith, clash)
    go (inl s) (inr (lo, p)) q =
        over lo s p (sym (starts true s ∙ ap (expired_from family name cutoff) p) ∙ q)

expired_of-IsPast :
    (family : PartitionFamily) (cutoff : ℕ) (names : List Text)
    → All (IsPast family cutoff names) (expired_of family cutoff names)
expired_of-IsPast family cutoff [] = tt
expired_of-IsPast family cutoff (name ∷ names) =
    go (as_expired family cutoff name) refl (expired_of-IsPast family cutoff names)
  where
    go :
        (o : Option Expired)
        → as_expired family cutoff name ≡ o
        → All (IsPast family cutoff names) (expired_of family cutoff names)
        → All (IsPast family cutoff (name ∷ names)) (or_skip o (expired_of family cutoff names))
    go none k h = IsPast-tail family cutoff name names _ h
    go (some e) k h =
        (as_expired-IsPast family cutoff name names e k, IsPast-tail family cutoff name names _ h)

pub classify-IsPast :
    (family : PartitionFamily) (names : List Text) (cutoff : ℕ)
    → All (IsPast family cutoff names) (classify family names cutoff)
classify-IsPast family names cutoff =
    All-sort_by_lo (IsPast family cutoff names) _ (expired_of-IsPast family cutoff names)
