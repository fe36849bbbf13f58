-- ===== src/Store/Metrics/Tests.antt =====
-- Three samples of one node, two of them older than the hot window.
use klever_node_hub.Prelude.{ℕ, ◌+◌, ◌≡◌, refl, true, List, [], ◌∷◌, arith}
use klever_node_hub.Store.Metrics.{
  Aggregates, RawRow, ArchiveRow, MetricsStore, decimate, query_auto_resolution,
}
use klever_node_hub.Store.Metrics.Decimation.{IsDecimated, decimate-IsDecimated}
use klever_node_hub.Store.Metrics.Queries.{query_auto_resolution-hides}

abbrev first : List ℕ → ℕ
first [] = 0
first (x ∷ xs) = x

abbrev firsts : Aggregates ℕ
firsts = record { avg = first; min = first; max = first }

abbrev raw_at : ℕ → RawRow ℕ
raw_at t = record {
  node_id = "n";
  server_id = "s";
  metric_name = "m";
  metric_value = t;
  collected_at = t;
}

abbrev bucket_at : ℕ → ArchiveRow ℕ
bucket_at t = record {
  node_id = "n";
  server_id = "s";
  metric_name = "m";
  avg_value = 0;
  min_value = 0;
  max_value = 0;
  sample_count = 3;
  bucket_start = t;
  bucket_end = t + 300;
}

abbrev filled : MetricsStore ℕ
filled = record {
  recent = raw_at 610 ∷ raw_at 1000 ∷ raw_at 5000 ∷ [];
  archive = bucket_at 0 ∷ bucket_at 300 ∷ [];
}

decimate-IsDecimated_example :
    IsDecimated firsts 4000 0 filled (decimate firsts (λ k. true) 6000 2000 300 filled)
decimate-IsDecimated_example =
    decimate-IsDecimated firsts (λ k. true) 6000 2000 300 filled (λ k. refl)

query_auto_resolution-hides_example :
    query_auto_resolution true 6000 2000 "n" "m" 0 6000 filled
    ≡ query_auto_resolution true 6000 2000 "n" "m" 0 6000
        (record filled { recent = raw_at 610 ∷ raw_at 5000 ∷ [] })
query_auto_resolution-hides_example =
    query_auto_resolution-hides true 6000 2000 "n" "m" 0 6000 (raw_at 1000) (raw_at 610 ∷ [])
      (raw_at 5000 ∷ []) filled.archive (omega arith) (omega arith)
