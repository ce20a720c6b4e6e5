-- ===== src/Storage/Partitions/Tests.antt =====
-- Tests and the witness of the partitions.
use probeboard_api.Common.{
  ℕ, ◌+◌, ◌≡◌, refl, ◌⊎◌, true, false, ◌||◌, Option, none, some, List, [], ◌∷◌, map, Text, codes,
}
use probeboard_api.Storage.Periods.{
  date_utc, get_utc_full_year, get_utc_month, get_utc_date, last_started, period_start,
  next_period_start, periods_from, periods_covering, period_suffix, pad, digits_of,
  partition_families,
}
use probeboard_api.Storage.Partitions.{
  Partition, Ensured, PartitionConfig, names, ensure_period, ensure_periods, ensure_families,
  ensure_range, ensure, add_utc_months, horizon_ms,
}
use probeboard_api.Storage.Partitions.Laws.{AreCovered, IsOfRange, HasGrown, ensure_range_rules}

abbrev cfg : PartitionConfig
cfg = record { partition_ahead_days = 1; partition_ahead_months = 1 }

-- 2024-01-22.
abbrev now : ℕ
now = 63873100800000

abbrev existing : List Partition
existing =
    record {
      parent = codes "probe_results";
      name = codes "probe_results_p20240122";
      from = now;
      to = now + 86400000;
    }
    ∷ []

-- One of the names is that of a table which is no attached partition.
abbrev relations : List Text
relations = codes "claim_log_p20240122" ∷ codes "probe_results_p20240122" ∷ []

abbrev some_partitions : Option Ensured → List (List Partition)
some_partitions none = []
some_partitions (some t) = t.partitions ∷ []

ensure_test :
    map names (some_partitions (ensure cfg now true false existing relations))
    ≡ (codes "probe_stats_h1_p202402"
        ∷ codes "probe_stats_h1_p202401"
        ∷ codes "probe_stats_m1_p20240123"
        ∷ codes "probe_stats_m1_p20240122"
        ∷ codes "claim_log_p20240123"
        ∷ codes "probe_results_p20240123"
        ∷ codes "probe_results_p20240122"
        ∷ [])
      ∷ []
unfolding ensure ensure_range ensure_families ensure_periods ensure_period add_utc_months
    periods_covering periods_from period_suffix period_start next_period_start date_utc
    get_utc_full_year get_utc_month get_utc_date last_started pad digits_of
ensure_test = refl

horizon_test : horizon_ms (some (codes "20240131")) (date_utc 2024 1 31) ≡ 86400000
unfolding horizon_ms date_utc
horizon_test = refl

ensure_range_rules_example :
    ((true || false ≡ false) × (ensure_range now now now true false existing relations ≡ none))
    ⊎ ((true || false ≡ true)
        × ((t : Ensured) × (ensure_range now now now true false existing relations ≡ some t)
            × AreCovered now now now partition_families t.relations
            × HasGrown
                (IsOfRange now now now)
                (record { partitions = existing; relations = relations; created = [] })
                t))
ensure_range_rules_example = ensure_range_rules now now now true false existing relations
