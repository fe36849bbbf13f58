-- ===== src/Store/Metrics/Decimation.antt =====
-- Decimation ends, moves every row below the cutoff and no other, and loses no sample.
use klever_node_hub.Prelude.{
  ℕ, zero, suc, ◌+◌, ◌-◌, ◌*◌, ◌≤◌, ◌<◌, ◌≡◌, refl, sym, ◌∙◌, Bool, true, false, not, List, [], ◌∷◌,
  ◌++◌, map, Option, none, some, ◌==◌, string_eq, nat_eq, if◌then◌else◌, length, length-keep-le,
  keep, ltb, arith, Option-cases, inl, inr, ◌⊎◌, subst,
}
use klever_node_hub.Store.Metrics.{
  Aggregates, RawRow, ArchiveRow, MetricsStore, Group, bucket_of, add_sample, group_by, min_ts,
  is_between, archived, move_slice, decimate_slice, after_slice, decimate_loop, decimate,
}

-- Samples in the archive.
unfoldable pub samples_in : {F : Type 0} → List (ArchiveRow F) → ℕ
samples_in [] = 0
samples_in (r ∷ rows) = r.sample_count + samples_in rows

module _ {F : Type 0} where
  abbrev pub is_below : ℕ → RawRow F → Bool
  is_below cutoff r = ltb r.collected_at cutoff

  samples_in-append :
      (xs ys : List (ArchiveRow F)) → samples_in (xs ++ ys) ≡ samples_in xs + samples_in ys
  unfolding samples_in
  samples_in-append [] ys = omega arith
  samples_in-append (x ∷ xs) ys = omega (arith, samples_in-append xs ys)

  samples_in-add_sample :
      (a : Aggregates F) (size : ℕ) (r : RawRow F) (gs : List (Group F))
      → samples_in (map (archived a size) (add_sample size r gs))
        ≡ suc (samples_in (map (archived a size) gs))
  unfolding samples_in add_sample
  samples_in-add_sample a size r [] = omega arith
  samples_in-add_sample a size r (g ∷ gs) = ground (arith, samples_in-add_sample a size r gs)

  samples_in-group_by :
      (a : Aggregates F) (size : ℕ) (rows : List (RawRow F))
      → samples_in (map (archived a size) (group_by size rows)) ≡ length rows
  unfolding group_by samples_in
  samples_in-group_by a size [] = refl
  samples_in-group_by a size (r ∷ rows) =
      omega (
        arith,
        samples_in-add_sample a size r (group_by size rows),
        samples_in-group_by a size rows,
      )

  -- Of the rows below the cutoff, a slice that ends at the cutoff at the latest takes its part.
  keep-below :
      (cutoff start end : ℕ) (rows : List (RawRow F))
      → end ≤ cutoff
      → length (keep (is_below cutoff) rows)
        ≡ length (keep (is_between start end) rows)
          + length (keep (is_below cutoff) (keep (λ r. not (is_between start end r)) rows))
  unfolding keep
  keep-below cutoff start end [] h = omega arith
  keep-below cutoff start end (r ∷ rows) h = ground (arith, keep-below cutoff start end rows h)

  -- And leaves the others, in order.
  keep-above :
      (cutoff start end : ℕ) (rows : List (RawRow F))
      → end ≤ cutoff
      → keep (λ r. not (is_below cutoff r)) (keep (λ r. not (is_between start end r)) rows)
        ≡ keep (λ r. not (is_below cutoff r)) rows
  unfolding keep
  keep-above cutoff start end [] h = refl
  keep-above cutoff start end (r ∷ rows) h = ground (arith, keep-above cutoff start end rows h)

  -- If no time lies below the cutoff, there is nothing to move.
  min_ts-none :
      (cutoff : ℕ) (rows : List (RawRow F))
      → min_ts cutoff rows ≡ none
      → length (keep (is_below cutoff) rows) ≡ 0
  unfolding min_ts keep
  min_ts-none cutoff [] h = refl
  min_ts-none cutoff (r ∷ rows) h = elim (Option-cases (min_ts cutoff rows)) [
    | inl e ↦ ground (arith, h, e, min_ts-none cutoff rows e)
    | inr (m, e) ↦ ground (arith, h, e)
  ]

  keep-none :
      (cutoff : ℕ) (rows : List (RawRow F))
      → length (keep (is_below cutoff) rows) ≡ 0
      → keep (λ r. not (is_below cutoff r)) rows ≡ rows
  unfolding keep
  keep-none cutoff [] h = refl
  keep-none cutoff (r ∷ rows) h = ground (arith, h, keep-none cutoff rows)

  -- A slice that starts at the least time or before holds all that lies below the cutoff and below its
  -- end, and holds the row with the least time.
  min_ts-covers :
      (cutoff start m : ℕ) (rows : List (RawRow F))
      → min_ts cutoff rows ≡ some m
      → start ≤ m
      → length (keep (is_between start cutoff) rows) ≡ length (keep (is_below cutoff) rows)
  unfolding min_ts keep
  min_ts-covers cutoff start m [] h le = absurd (ground (arith, h))
  min_ts-covers cutoff start m (r ∷ rows) h le = elim (Option-cases (min_ts cutoff rows)) [
    | inl e ↦ ground (
      arith,
      h,
      e,
      le,
      min_ts-none cutoff rows e,
      keep-below cutoff start cutoff rows (omega arith),
    )
    | inr (k, e) ↦ ground (arith, h, e, le, min_ts-covers cutoff start k rows e)
  ]

  min_ts-lt : (cutoff m : ℕ) (rows : List (RawRow F)) → min_ts cutoff rows ≡ some m → m < cutoff
  unfolding min_ts
  min_ts-lt cutoff m [] h = absurd (ground (arith, h))
  min_ts-lt cutoff m (r ∷ rows) h = elim (Option-cases (min_ts cutoff rows)) [
    | inl e ↦ ground (arith, h, e)
    | inr (k, e) ↦ ground (arith, h, e, min_ts-lt cutoff k rows e)
  ]

  min_ts-pos :
      (cutoff start end m : ℕ) (rows : List (RawRow F))
      → min_ts cutoff rows ≡ some m
      → start ≤ m
      → m < end
      → 0 < length (keep (is_between start end) rows)
  unfolding min_ts keep
  min_ts-pos cutoff start end m [] h lo hi = absurd (ground (arith, h))
  min_ts-pos cutoff start end m (r ∷ rows) h lo hi = elim (Option-cases (min_ts cutoff rows)) [
    | inl e ↦ ground (arith, h, e, lo, hi)
    | inr (k, e) ↦ ground (arith, h, e, lo, hi, min_ts-pos cutoff start end k rows e)
  ]

bucket_of-le : (size t : ℕ) → 0 < size → (bucket_of size t ≤ t) × (t < bucket_of size t + size)
bucket_of-le size t h = grind arith

module _ {F : Type 0} (a : Aggregates F) where
  abbrev pub count_below : ℕ → MetricsStore F → ℕ
  count_below cutoff s = length (keep (is_below cutoff) s.recent)

  abbrev pub rows_above : ℕ → MetricsStore F → List (RawRow F)
  rows_above cutoff s = keep (λ r. not (is_below cutoff r)) s.recent

  -- What a slice did: whether nothing is left, how many rows it moved, and the store after it.
  record IsSlice (cutoff : ℕ) (s : MetricsStore F) (done : Bool) (n : ℕ) (s' : MetricsStore F)
      : Type 0 where
    above : rows_above cutoff s' ≡ rows_above cutoff s
    below : count_below cutoff s ≡ n + count_below cutoff s'
    samples : samples_in s'.archive ≡ samples_in s.archive + n
    progress : (done ≡ true) ⊎ (0 < n)
    finished : done ≡ true → count_below cutoff s' ≡ 0

  move_slice-IsSlice :
      (cutoff size span : ℕ) (s : MetricsStore F) (o : Option ℕ)
      → min_ts cutoff s.recent ≡ o
      → 0 < size
      → size ≤ span
      → let r = move_slice a cutoff size span s o in IsSlice cutoff s r.0 r.1 r.2
  unfolding move_slice
  move_slice-IsSlice cutoff size span s none e hs hp = record {
    above = refl;
    below = omega arith;
    samples = omega arith;
    progress = inl refl;
    finished = λ d. min_ts-none cutoff s.recent e;
  }
  move_slice-IsSlice cutoff size span s (some m) e hs hp =
      let start = bucket_of size m in
      let end = if ltb cutoff (start + span) then cutoff else start + span in
      let slice = keep (is_between start end) s.recent in
      let b = bucket_of-le size m hs in
      let inside : end ≤ cutoff = ground arith in
      let split = keep-below cutoff start end s.recent inside in
      record {
        above = keep-above cutoff start end s.recent inside;
        below = split;
        samples = omega (
          arith,
          samples_in-append s.archive (map (archived a size) (group_by size slice)),
          samples_in-group_by a size slice,
        );
        progress = inr (
            min_ts-pos cutoff start end m s.recent e b.0
              (ground (arith, b, hp, min_ts-lt cutoff m s.recent e)));
        finished = λ d. ground (arith, d, split, min_ts-covers cutoff start m s.recent e b.0);
      }

  -- The loop has ended, and this is what it did.
  pub record IsDecimated (cutoff total : ℕ) (s : MetricsStore F)
      (r : MetricsStore F × ℕ × Option Bool) : Type 0 where
    pub ended : r.2 ≡ some true
    pub kept : r.0.recent ≡ rows_above cutoff s
    pub counted : r.1 ≡ total + count_below cutoff s
    pub samples : samples_in r.0.archive ≡ samples_in s.archive + count_below cutoff s

  after_slice-IsDecimated :
      (next : MetricsStore F → ℕ → MetricsStore F × ℕ × Option Bool) (cutoff total : ℕ)
      (s : MetricsStore F) (done : Bool) (n : ℕ) (s' : MetricsStore F)
      → IsSlice cutoff s done n s'
      → (done ≡ false → IsDecimated cutoff (total + n) s' (next s' (total + n)))
      → IsDecimated cutoff total s (after_slice a next s total (some (done, n, s')))
  unfolding after_slice
  after_slice-IsDecimated next cutoff total s true n s' i rest = record {
    ended = refl;
    kept = sym (keep-none cutoff s'.recent (i.finished refl)) ∙ i.above;
    counted = omega (arith, i.below, i.finished refl);
    samples = omega (arith, i.below, i.samples, i.finished refl);
  }
  after_slice-IsDecimated next cutoff total s false n s' i rest =
      let d = rest refl in
      record {
        ended = d.ended;
        kept = d.kept ∙ i.above;
        counted = omega (arith, d.counted, i.below);
        samples = omega (arith, d.samples, i.samples, i.below);
      }

  decimate_loop-IsDecimated :
      (fuel : ℕ) (io : ℕ → Bool) (cutoff size span : ℕ) (s : MetricsStore F) (total : ℕ)
      → ((k : ℕ) → io k ≡ true)
      → 0 < size
      → size ≤ span
      → count_below cutoff s < fuel
      → IsDecimated cutoff total s (decimate_loop a fuel io cutoff size span s total)
  unfolding decimate_loop decimate_slice
  decimate_loop-IsDecimated zero io cutoff size span s total ok hs hp h = elim h [ ]
  decimate_loop-IsDecimated (suc fuel) io cutoff size span s total ok hs hp h =
      let r = move_slice a cutoff size span s (min_ts cutoff s.recent) in
      let i = move_slice-IsSlice cutoff size span s (min_ts cutoff s.recent) refl hs hp in
      let next = decimate_loop a fuel io cutoff size span in
      subst
        (λ b.
          IsDecimated cutoff total s
            (after_slice a next s total (decimate_slice a b cutoff size span s)))
        (sym (ok fuel))
        (after_slice-IsDecimated next cutoff total s r.0 r.1 r.2 i (λ d.
          decimate_loop-IsDecimated fuel io cutoff size span r.2 (total + r.1) ok hs hp
            (ground (arith, d, i.progress, i.below, h))))

  -- While the database answers, a decimation ends, however the times of the rows lie: afterwards the raw
  -- table holds exactly the rows from the cutoff on, in order, the archive counts as many samples more
  -- as rows lay below it, and that is the number returned.
  pub decimate-IsDecimated :
      (io : ℕ → Bool) (now older_than bucket_size : ℕ) (s : MetricsStore F)
      → ((k : ℕ) → io k ≡ true)
      → IsDecimated (now - older_than) 0 s (decimate a io now older_than bucket_size s)
  unfolding decimate
  decimate-IsDecimated io now older_than bucket_size s ok =
      let size = if bucket_size == 0 then 300 else bucket_size in
      decimate_loop-IsDecimated (suc (length s.recent)) io (now - older_than) size (size * 6) s 0 ok
        (ground arith) (omega arith)
        (omega (arith, length-keep-le (is_below (now - older_than)) s.recent))
