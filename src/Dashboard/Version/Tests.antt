-- ===== src/Dashboard/Version/Tests.antt =====
-- Releases of the fork and of its source.
use klever_node_hub.Prelude.{ℕ, ◌≡◌, refl, true, false, List, codes, scan_int}
use klever_node_hub.Dashboard.Version.{
  trim_v, is_dev, is_newer, text_beq, compare_versions, compare_parts, compare_numbers, split,
  fork_revision, cut, after_prefix,
}
use klever_node_hub.Dashboard.Version.Order.{IsSameRelease, is_newer_order}

abbrev old_release : List ℕ
old_release = codes "v0.3.87"

abbrev fork_release : List ℕ
fork_release = codes "v0.3.87-knh.3"

abbrev new_release : List ℕ
new_release = codes "0.10.1"

is_newer_order_example :
    (is_newer new_release fork_release ≡ true → is_newer fork_release new_release ≡ false)
    × (is_newer new_release fork_release ≡ true
        → is_newer fork_release old_release ≡ true
        → is_newer new_release old_release ≡ true)
    × (is_newer new_release fork_release ≡ false
        → is_newer fork_release new_release ≡ false
        → IsSameRelease (trim_v new_release) (trim_v fork_release))
unfolding is_dev text_beq
is_newer_order_example = is_newer_order new_release fork_release old_release refl refl refl

fork_is_newer : is_newer fork_release old_release ≡ true
unfolding is_newer is_dev text_beq compare_versions compare_parts compare_numbers split scan_int
    fork_revision cut after_prefix
fork_is_newer = refl
