-- ===== src/Storage/Partitions.antt =====
-- worker/storage/services/partition.service.ts: partitions are created ahead of need, in a
-- transaction under the lock. A statement that fails undoes the transaction and throws, so the pass
-- modelled is one in which none does.
mod Laws
mod Tests
use probeboard_api.Common.{
  ℕ, zero, suc, ◌+◌, ◌-◌, ◌*◌, min, max, refl, sym, ap, inl, inr, Bool, true, false, not, ◌||◌,
  and-eq-true_iff, Option, none, some, List, [], ◌∷◌, map, append_assoc, append-nil, arith, ltb,
  leb, if◌then◌else◌, ltb→lt, lt→ltb, leb→le, ==_iff, tests, Bool-cases, Option-cases, length,
  get_elem?, get_or, take, replicate, length-append, length-take, all, any, find, All, All-append,
  ℤ, pos, negsuc, sub_ℕ, Text, codes, text_eq, text_eq_iff, starts_with, includes, has, lower_unit,
  upper_unit, to_lower_case, to_upper_case,
}
use probeboard_api.Storage.Periods.{
  PeriodKind, Period, day, month, PartitionFamily, partition_families, periods_covering,
  partition_name, get_utc_full_year, get_utc_month, date_utc, day_ms, number_of, drop,
}

pub record PartitionConfig : Type 0 where
  pub partition_ahead_days : ℕ
  pub partition_ahead_months : ℕ

-- A table, the one that it is attached to and the bounds it is attached with.
pub record Partition : Type 0 where
  pub parent : Text
  pub name : Text
  pub from : ℕ
  pub to : ℕ

-- The catalogue: the attached partitions, and the names that `to_regclass` finds, of whichever kind
-- of relation. With them the names created. The latest stand first; the names of the indexes that
-- come with a table are not recorded.
pub record Ensured : Type 0 where
  pub partitions : List Partition
  pub relations : List Text
  pub created : List Text

abbrev pub names : List Partition → List Text
names partitions = map (λ (p : Partition). p.name) partitions

abbrev pub made : PartitionFamily → Period → Partition
made family period = record {
  parent = family.parent;
  name = partition_name family period.suffix;
  from = period.from;
  to = period.to;
}

abbrev pub creating : Ensured → Partition → Ensured
creating s made_one = record {
  partitions = made_one ∷ s.partitions;
  relations = made_one.name ∷ s.relations;
  created = made_one.name ∷ s.created;
}

-- The body of the inner loop, the inner loop and the outer one.
unfoldable pub ensure_period : PartitionFamily → Period → Ensured → Ensured
ensure_period family period s =
    if has s.relations (partition_name family period.suffix)
    then s
    else creating s (made family period)

unfoldable pub ensure_periods : PartitionFamily → List Period → Ensured → Ensured
unfolding ensure_period
ensure_periods family [] s = s
ensure_periods family (p ∷ periods) s = ensure_periods family periods (ensure_period family p s)

abbrev pub end_for : PeriodKind → ℕ → ℕ → ℕ
end_for day daily_to monthly_to = daily_to
end_for month daily_to monthly_to = monthly_to

unfoldable pub ensure_families : ℕ → ℕ → ℕ → List PartitionFamily → Ensured → Ensured
unfolding ensure_periods periods_covering
ensure_families from daily_to monthly_to [] s = s
ensure_families from daily_to monthly_to (f ∷ families) s =
    ensure_families from daily_to monthly_to families
      (ensure_periods f (periods_covering f.kind from (end_for f.kind daily_to monthly_to)) s)

-- `none` where the lock is not waited for and another holds it.
unfoldable pub ensure_range : ℕ → ℕ → ℕ → Bool → Bool → List Partition → List Text → Option Ensured
unfolding ensure_families
ensure_range from daily_to monthly_to wait got partitions relations =
    if wait || got
    then some (
        ensure_families from daily_to monthly_to partition_families
          (record { partitions = partitions; relations = relations; created = [] }))
    else none

unfoldable pub add_utc_months : ℕ → ℕ → ℕ
unfolding date_utc get_utc_full_year get_utc_month
add_utc_months at months = date_utc (get_utc_full_year at) (get_utc_month at + months + 1) 1

abbrev pub add_utc_days : ℕ → ℕ → ℕ
add_utc_days at days = at + days * day_ms

unfoldable pub ensure :
    PartitionConfig → ℕ → Bool → Bool → List Partition → List Text → Option Ensured
unfolding ensure_range add_utc_months
ensure cfg now =
    ensure_range now (add_utc_days now cfg.partition_ahead_days)
      (add_utc_months now cfg.partition_ahead_months)

-- The milliseconds, rather than the days, that the raw partitions reach beyond a time; the latest
-- suffix of theirs is the database's answer.
unfoldable pub horizon_ms : Option Text → ℕ → ℕ
unfolding date_utc
horizon_ms none now = 0
horizon_ms (some latest) now =
    date_utc (number_of 0 (take 4 latest)) (number_of 0 (take 2 (drop 4 latest)))
      (number_of 0 (take 2 (drop 6 latest)) + 1)
    - now
