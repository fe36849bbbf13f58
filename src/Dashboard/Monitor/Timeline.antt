-- ===== src/Dashboard/Monitor/Timeline.antt =====
-- The timeline of a validator over the window.
use klever_node_hub.Prelude.{
  ℕ, zero, suc, ◌+◌, ◌-◌, ◌/◌, ◌≤◌, ◌<◌, ◌≡◌, refl, ap, ◌∙◌, String, Bool, true, false, not, ◌&&◌,
  [], Option, none, some, lookup, ◌==◌, nat_eq, string_eq, if◌then◌else◌, get_elem?, leb, arith,
}
use klever_node_hub.Dashboard.Monitor.{
  is_member, BlockRec, Monitor, cell_status, cells_from, timeline, block_chunk,
}

-- A block of the current epoch that shows its signers, was led by another one, and was not signed.
abbrev pub is_missed : Bool → ℕ → String → Option BlockRec → Bool
is_missed elected epoch bls none = false
is_missed elected epoch bls (some rec) =
    elected
    && rec.has_signers
    && rec.epoch == epoch
    && not (is_member bls rec.signers)
    && not (rec.producer_bls == bls)

abbrev switch : Bool → Bool → Bool → String
switch a b c = if a then "skipped" else if b then "produced" else if c then "missed" else "idle"

picks_missed : (a b c : Bool) → (switch a b c == "missed") ≡ (not a && not b && c)
picks_missed true b c = refl
picks_missed false true c = refl
picks_missed false false true = refl
picks_missed false false false = refl

cell_status_lem :
    (can elected : Bool) (epoch : ℕ) (bls : String) (found : Option BlockRec)
    → (cell_status can elected epoch bls found == "missed") ≡ is_missed elected epoch bls found
unfolding cell_status
cell_status_lem can elected epoch bls none =
    picks_missed can ("" == bls) (elected && false && 0 == epoch && not (is_member bls []))
    ∙ ground arith
cell_status_lem can elected epoch bls (some rec) =
    picks_missed false (rec.producer_bls == bls)
      (elected && rec.has_signers && rec.epoch == epoch && not (is_member bls rec.signers))
    ∙ ground arith

abbrev pub cell_at : Bool → Bool → String → Monitor → ℕ → ℕ × String
cell_at can elected bls m n = (n, cell_status can elected m.epoch bls (lookup n m.have))

cells_from_lem :
    (can elected : Bool) (bls : String) (m : Monitor) (k n i : ℕ)
    → i < k
    → get_elem? (cells_from can elected bls m k n) i ≡ some (cell_at can elected bls m (n + i))
unfolding cells_from
cells_from_lem can elected bls m zero n i h = absurd (omega (arith, h))
cells_from_lem can elected bls m (suc k) n zero h =
    let at : n ≡ n + 0 = omega arith in ap (λ j. some (cell_at can elected bls m j)) at
cells_from_lem can elected bls m (suc k) n (suc i) h =
    let at : suc n + i ≡ n + suc i = omega arith in
    cells_from_lem can elected bls m k (suc n) i (omega (arith, h))
    ∙ ap (λ j. some (cell_at can elected bls m j)) at

missed_at :
    (elected : Bool) (epoch : ℕ) (bls : String) (n : ℕ) (status : String) (found : Option BlockRec)
    (o : Option (ℕ × String))
    → o ≡ some (n, status)
    → (status == "missed") ≡ is_missed elected epoch bls found
    → (cell : ℕ × String) × (o ≡ some cell)
      × (cell.0 ≡ n)
      × ((cell.1 == "missed") ≡ is_missed elected epoch bls found)
missed_at elected epoch bls n status found o h e = ((n, status), h, refl, e)

-- If the window starts above 0, the timeline has a cell for every nonce of the window, in order. It says "missed" exactly where the
-- validator list has the validator as elected, and the window holds a block of the current epoch that
-- shows its signers, was led by another validator, and was not signed by this one: neither a skipped
-- nonce nor a block of an earlier epoch counts as missed.
pub timeline_lem :
    (elected : Bool) (bls : String) (head start i : ℕ) (m : Monitor)
    → 0 < start
    → start + i ≤ head
    → (cell : ℕ × String) × (get_elem? (timeline elected bls head start m) i ≡ some cell)
      × (cell.0 ≡ start + i)
      × ((cell.1 == "missed") ≡ is_missed elected m.epoch bls (lookup (start + i) m.have))
unfolding timeline
timeline_lem elected bls head start i m lo hi =
    let can = leb ((m.window + block_chunk - 1) / block_chunk) (1 + m.max_per_tick) in
    let from : (if start == 0 then 1 else start) ≡ start = ground (arith, lo) in
    let found = lookup (start + i) m.have in
    missed_at elected m.epoch bls (start + i) (cell_status can elected m.epoch bls found) found
      (get_elem? (timeline elected bls head start m) i)
      (ap (λ j. get_elem? (cells_from can elected bls m (suc head - j) j) i) from
        ∙ cells_from_lem can elected bls m (suc head - start) start i (omega (arith, hi)))
      (cell_status_lem can elected m.epoch bls found)
