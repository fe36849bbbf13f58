-- ===== src/Notify/Manager/Tests.antt =====
-- Two channels, one of which takes critical alerts only and fails.
use klever_node_hub.Prelude.{
  ℕ, ◌≡◌, refl, [], ◌∷◌, String, Option, none, some, string_eq, ◌==◌, if◌then◌else◌, arith, keep,
  map,
}
use klever_node_hub.Notify.Alert.{Alert}
use klever_node_hub.Notify.Manager.{
  HistoryEntry, Manager, new_manager, add_channel, add_channel_with_filter, add_history, send,
  stamped, matches_filter, contains_str,
}
use klever_node_hub.Notify.Manager.History.{last_of, add_history_repeats}
use klever_node_hub.Notify.Manager.Delivery.{outcome, send-Delivers}

abbrev deliver : String → ℕ → Alert → Option String
deliver name now alert = if name == "pager" then some "unreachable" else none

abbrev alert : Alert
alert = record {
  title = "Down";
  message = "n1 is down";
  severity = "critical";
  source = "n1";
  alert_type = "";
  time = 0;
}

abbrev manager : Manager
manager =
    add_channel_with_filter "pager" record { severities = "critical" ∷ []; alert_types = [] }
      (add_channel "mail" new_manager)

send-Delivers_example : (send deliver 7 alert manager).1 ≡ "mail" ∷ "pager" ∷ []
unfolding keep matches_filter contains_str stamped add_channel_with_filter add_channel new_manager
send-Delivers_example = (send-Delivers deliver 7 alert manager (omega arith)).0

abbrev entry : HistoryEntry
entry =
    outcome deliver 7 alert
      record { channel = "mail"; filter = record { severities = []; alert_types = [] } }

abbrev full : Manager
full = record { channels = []; history = entry ∷ entry ∷ []; max_hist = 2 }

add_history_repeats_example :
    map (λ h. h.id) (last_of 2 (add_history entry (add_history entry full)).history) ≡ 3 ∷ 3 ∷ []
add_history_repeats_example = add_history_repeats entry entry full (omega arith) refl
