-- ===== src/Store/Settings/Tests.antt =====
-- Settings with texts that are and are not numbers.
use klever_node_hub.Prelude.{◌≡◌, ◌≤◌, refl, true, [], ◌∷◌, some, lookup, atoi}
use klever_node_hub.Store.Settings.{Settings, heartbeat_timeout, heartbeat_timeout_bounds}

abbrev too_long : Settings
too_long = ("heartbeat_timeout_sec", "900") ∷ []

heartbeat_timeout_bounds_example :
    (30 ≤ heartbeat_timeout true (some too_long)) × (heartbeat_timeout true (some too_long) ≤ 600)
heartbeat_timeout_bounds_example = heartbeat_timeout_bounds true (some too_long)

in_seconds : heartbeat_timeout true (some too_long) ≡ 600
unfolding heartbeat_timeout lookup atoi
in_seconds = refl
