-- ===== src/Store/Metrics/Queries.antt =====
-- What a query over both tables does not show.
use klever_node_hub.Prelude.{
  ℕ, ◌-◌, ◌<◌, ◌≡◌, String, Bool, false, List, [], ◌∷◌, ◌++◌, string_eq, keep, arith,
}
use klever_node_hub.Store.Metrics.{
  RawRow, ArchiveRow, is_asked, query_recent, query_archive, query_auto_resolution,
}

module _ {F : Type 0} where
  keep-skips :
      (p : RawRow F → Bool) (r : RawRow F) (xs ys : List (RawRow F))
      → p r ≡ false
      → keep p (xs ++ r ∷ ys) ≡ keep p (xs ++ ys)
  unfolding keep
  keep-skips p r [] ys h = ground (arith, h)
  keep-skips p r (x ∷ xs) ys h = ground (arith, keep-skips p r xs ys h)

  -- A query that begins before the hot window is answered as if the raw rows older than the window
  -- were not there, wherever they stand: until the next hourly decimation they are in no result.
  pub query_auto_resolution-hides :
      (io : Bool) (now hot_window : ℕ) (node metric : String) (from to : ℕ) (r : RawRow F)
      (older newer : List (RawRow F)) (archive : List (ArchiveRow F))
      → from < now - hot_window
      → r.collected_at < now - hot_window
      → query_auto_resolution io now hot_window node metric from to
          record { recent = older ++ r ∷ newer; archive = archive }
        ≡ query_auto_resolution io now hot_window node metric from to
            record { recent = older ++ newer; archive = archive }
  unfolding query_auto_resolution query_recent query_archive
  query_auto_resolution-hides io now hot_window node metric from to r older newer archive h old =
      let cutoff = now - hot_window in
      let p = is_asked node metric cutoff to in
      let out : p r ≡ false = ground (arith, old) in
      ground (arith, h, keep-skips p r older newer out)
