-- ===== src/Store/Metrics/Purges.antt =====
-- A purge in batches ends and deletes every old row and no other.
use klever_node_hub.Prelude.{
  ℕ, zero, suc, ◌+◌, ◌-◌, ◌<◌, ◌≡◌, refl, sym, ◌∙◌, Bool, true, not, List, [], ◌∷◌, Option, some,
  if◌then◌else◌, length, length-keep-le, keep, ltb, arith, Bool-cases, inl, inr,
}
use klever_node_hub.Store.Metrics.{
  MetricsStore, ArchiveRow, purge_batch, delete_first, purge_loop, purge_old_rows, purge,
}

module _ {A : Type 0} (is_old : A → Bool) where
  abbrev old_rows : List A → ℕ
  old_rows rows = length (keep is_old rows)

  delete_first-kept :
      (k : ℕ) (rows : List A)
      → keep (λ r. not (is_old r)) (delete_first is_old k rows).0 ≡ keep (λ r. not (is_old r)) rows
  unfolding delete_first keep
  delete_first-kept zero rows = refl
  delete_first-kept (suc k) [] = refl
  delete_first-kept (suc k) (r ∷ rows) =
      ground (arith, delete_first-kept k rows, delete_first-kept (suc k) rows)

  delete_first-count :
      (k : ℕ) (rows : List A)
      → let d = delete_first is_old k rows in
        (old_rows rows ≡ d.1 + old_rows d.0)
        × (d.1 ≡ (if ltb (old_rows rows) k then old_rows rows else k))
  unfolding delete_first keep
  delete_first-count zero rows = (omega arith, ground arith)
  delete_first-count (suc k) [] = (omega arith, ground arith)
  delete_first-count (suc k) (r ∷ rows) =
      ground (arith, delete_first-count k rows, delete_first-count (suc k) rows)

  no_old : (rows : List A) → old_rows rows ≡ 0 → keep (λ r. not (is_old r)) rows ≡ rows
  unfolding keep
  no_old [] h = refl
  no_old (r ∷ rows) h = ground (arith, h, no_old rows)

  pub record IsPurged (total : ℕ) (rows : List A) (r : List A × ℕ × Option Bool) : Type 0 where
    pub ended : r.2 ≡ some true
    pub kept : r.0 ≡ keep (λ row. not (is_old row)) rows
    pub counted : r.1 ≡ total + length (keep is_old rows)

  last_batch :
      (total : ℕ) (rows left : List A) (n : ℕ)
      → keep (λ r. not (is_old r)) left ≡ keep (λ r. not (is_old r)) rows
      → n ≡ old_rows rows
      → old_rows left ≡ 0
      → IsPurged total rows (left, total + n, some true)
  last_batch total rows left n same all none_left = record {
    ended = refl;
    kept = sym (no_old left none_left) ∙ same;
    counted = omega (arith, all);
  }

  next_batch :
      (total : ℕ) (rows left : List A) (n : ℕ) (r : List A × ℕ × Option Bool)
      → keep (λ r. not (is_old r)) left ≡ keep (λ r. not (is_old r)) rows
      → old_rows rows ≡ n + old_rows left
      → IsPurged (total + n) left r
      → IsPurged total rows r
  next_batch total rows left n r same all p = record {
    ended = p.ended;
    kept = p.kept ∙ same;
    counted = omega (arith, all, p.counted);
  }

  purge_loop-IsPurged :
      (fuel : ℕ) (io : ℕ → Bool) (batch : ℕ) (rows : List A) (total : ℕ)
      → ((k : ℕ) → io k ≡ true)
      → 0 < batch
      → old_rows rows < fuel
      → IsPurged total rows (purge_loop is_old fuel io batch rows total)
  unfolding purge_loop
  purge_loop-IsPurged zero io batch rows total ok hb h = elim h [ ]
  purge_loop-IsPurged (suc fuel) io batch rows total ok hb h =
      let d = delete_first is_old batch rows in
      let same = delete_first-kept batch rows in
      let count = delete_first-count batch rows in
      elim (Bool-cases (ltb d.1 batch)) [
        | inl e ↦
            rw (ok fuel, purge_loop, e)
              (last_batch total rows d.0 d.1 same (ground (arith, e, count))
                (ground (arith, e, count)))
        | inr e ↦
            rw (ok fuel, purge_loop, e)
              (next_batch total rows d.0 d.1 (purge_loop is_old fuel io batch d.0 (total + d.1))
                same count.0
                (purge_loop-IsPurged fuel io batch d.0 (total + d.1) ok hb
                  (ground (arith, e, hb, count, h))))
      ]

-- While the database answers, a purge ends, in however many batches: it deletes exactly the buckets that
-- ended before the retention, keeps the others in order, and returns how many it deleted.
purge-IsPurged :
    {F : Type 0} (io : ℕ → Bool) (now older_than : ℕ) (s : MetricsStore F)
    → ((k : ℕ) → io k ≡ true)
    → let r = purge io now older_than s in
      IsPurged (λ row. ltb row.bucket_end (now - older_than)) 0 s.archive (r.0.archive, r.1, r.2)
unfolding purge purge_old_rows
purge-IsPurged io now older_than s ok =
    let old = λ (row : ArchiveRow _). ltb row.bucket_end (now - older_than) in
    purge_loop-IsPurged old (suc (length s.archive)) io purge_batch s.archive 0 ok (omega arith)
      (omega (arith, length-keep-le old s.archive))
