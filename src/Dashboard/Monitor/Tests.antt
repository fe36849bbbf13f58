-- ===== src/Dashboard/Monitor/Tests.antt =====
-- Two polls that see three blocks of epoch 7, for two managed nodes, one of which signs them all.
use klever_node_hub.Prelude.{
  ℕ, ◌≡◌, refl, String, true, List, [], ◌∷◌, none, some, lookup, ◌==◌, nat_eq, string_eq, get_elem?,
  arith, keep,
}
use klever_node_hub.Dashboard.Monitor.{
  Strings, ManagedNode, IndexerBlock, Validator, ElectionHistory, Monitor, is_member, count_at,
  normalize_bls, normalize_all, to_rec, merge_blocks, prune, elected_managed, list_of, timeline,
}
use klever_node_hub.Dashboard.Monitor.Elections.{
  tally_of, is_managed, signed_in, has_signed, Update, run_updates, elections_won,
  run_updates-counts,
}
use klever_node_hub.Dashboard.Monitor.Misses.{new_blocks, run_polls, all_blocks, run_polls-misses}
use klever_node_hub.Dashboard.Monitor.Window.{prune-merge_blocks}
use klever_node_hub.Dashboard.Monitor.Timeline.{timeline_lem}

abbrev plain : Strings
plain = record { to_lower = λ s. s; trim_space = λ s. s; trim_prefix = λ s p. s }

abbrev node : String → ManagedNode
node bls = record { id = bls; server_id = "s"; bls = bls; name = bls }

abbrev nodes : List ManagedNode
nodes = node "a" ∷ node "b" ∷ node "a" ∷ []

abbrev block : ℕ → List String → IndexerBlock
block n signers = record { nonce = n; epoch = 7; producer_bls = "c"; validators = signers }

abbrev blocks : List IndexerBlock
blocks = block 3 ("a" ∷ "b" ∷ []) ∷ block 2 ("a" ∷ []) ∷ block 1 ("a" ∷ "c" ∷ []) ∷ []

abbrev elected_validator : Validator
elected_validator = record { list = "elected"; leader_failures = 0; validator_failures = 0 }

abbrev elections : ElectionHistory
elections = record { current_month = "2025-01"; last_epoch = 6; history = [] }

abbrev monitor : Monitor
monitor = record {
  window = 100;
  max_per_tick = 8;
  elect = some elections;
  epoch_miss_epoch = 7;
  epoch_misses = [];
  epoch_seen_nonce = 3 ∷ [];
  have = (3, to_rec plain (block 3 ("a" ∷ "b" ∷ []))) ∷ (2, to_rec plain (block 2 ("a" ∷ []))) ∷ [];
  validators = ("a", elected_validator) ∷ ("b", elected_validator) ∷ [];
  epoch = 7;
}

-- The same epoch at two updates counts once.
abbrev update : Update plain
update = record { month = "2025-01"; epoch = 7; managed = nodes; blocks = monitor.have }

run_updates-counts_example :
    tally_of "2025-01" "a" (run_updates plain (update ∷ update ∷ []) monitor) ≡ 1
unfolding signed_in has_signed elections_won to_rec normalize_all normalize_bls is_member is_managed
    lookup
run_updates-counts_example =
    run_updates-counts plain (update ∷ update ∷ []) monitor elections "2025-01" "a" refl

run_polls-misses_example :
    count_at "b"
      (run_polls plain 7 nodes ((blocks, blocks) ∷ (blocks, []) ∷ []) monitor).epoch_misses
    ≡ 2
unfolding elected_managed list_of normalize_all normalize_bls is_member new_blocks all_blocks keep
    lookup
run_polls-misses_example =
    run_polls-misses plain 7 blocks blocks ((blocks, []) ∷ []) nodes monitor "b"

prune-merge_blocks_example :
    lookup 1 (prune 2 3 (record monitor { have = merge_blocks plain monitor.have blocks 2 3 })).have
    ≡ none
unfolding lookup
prune-merge_blocks_example = prune-merge_blocks plain monitor blocks 2 3 1 (refl, (refl, tt))

timeline_lem_example :
    (cell : ℕ × String) × (get_elem? (timeline true "b" 3 1 monitor) 1 ≡ some cell)
    × (cell.0 ≡ 2)
    × ((cell.1 == "missed") ≡ true)
unfolding lookup to_rec normalize_all normalize_bls is_member
timeline_lem_example = timeline_lem true "b" 3 1 1 monitor (omega arith) (omega arith)
