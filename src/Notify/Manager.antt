-- ===== src/Notify/Manager.antt =====
-- internal/notify/notify.go: the manager of the notification channels. `deliver name now alert` is
-- what the Send of the channel returns at a time: no error, or the text of one. Times are seconds.
use klever_node_hub.Prelude.{
  ℕ, suc, ◌+◌, ◌-◌, String, Bool, true, false, not, ◌&&◌, ◌||◌, List, [], ◌∷◌, ◌++◌, Option, none,
  some, ◌==◌, string_eq, nat_eq, if◌then◌else◌, length, ltb, drop, map,
}
use Prim.Native.String.{◌++◌ as append_text}
use klever_node_hub.Notify.Alert.{Alert, severity_info}
pub mod History
pub mod Delivery
pub mod Tests

pub record ChannelFilter : Type 0 where
  pub severities : List String
  pub alert_types : List String

-- containsStr
unfoldable pub contains_str : List String → String → Bool
contains_str [] val = false
contains_str (s ∷ ss) val = s == val || contains_str ss val

unfoldable pub matches_filter : ChannelFilter → String → String → Bool
unfolding contains_str
matches_filter f severity alert_type =
    if ltb 0 (length f.severities) && not (contains_str f.severities severity)
    then false
    else if ltb 0 (length f.alert_types)
        && not (alert_type == "")
        && not (contains_str f.alert_types alert_type)
    then false
    else true

pub record HistoryEntry : Type 0 where
  pub id : ℕ
  pub channel : String
  pub title : String
  pub message : String
  pub severity : String
  pub source : String
  pub success : Bool
  pub error : String
  pub sent_at : ℕ

-- A channel, of which the manager uses the name and Send, and its filter.
pub record ChannelEntry : Type 0 where
  pub channel : String
  pub filter : ChannelFilter

pub record Manager : Type 0 where
  pub channels : List ChannelEntry
  pub history : List HistoryEntry
  pub max_hist : ℕ

unfoldable pub new_manager : Manager
new_manager = record { channels = []; history = []; max_hist = 500 }

unfoldable pub add_channel_with_filter : String → ChannelFilter → Manager → Manager
add_channel_with_filter ch filter m = record m {
  channels = m.channels ++ record { channel = ch; filter = filter } ∷ [];
}

unfoldable pub add_channel : String → Manager → Manager
unfolding add_channel_with_filter
add_channel ch m = add_channel_with_filter ch record { severities = []; alert_types = [] } m

unfoldable pub remove_first : String → List ChannelEntry → List ChannelEntry
remove_first name [] = []
remove_first name (entry ∷ es) =
    let rest = remove_first name es in if entry.channel == name then es else entry ∷ rest

unfoldable pub remove_channel : String → Manager → Manager
unfolding remove_first
remove_channel name m = record m { channels = remove_first name m.channels }

unfoldable pub has_channel : String → List ChannelEntry → Bool
has_channel name [] = false
has_channel name (entry ∷ es) = entry.channel == name || has_channel name es

unfoldable pub set_first : String → ChannelFilter → List ChannelEntry → List ChannelEntry
set_first name filter [] = []
set_first name filter (entry ∷ es) =
    let rest = set_first name filter es in
    if entry.channel == name then record entry { filter = filter } ∷ es else entry ∷ rest

-- UpdateChannelFilter: `false` for the error that there is no such channel.
unfoldable pub update_channel_filter : String → ChannelFilter → Manager → Manager × Bool
unfolding set_first has_channel
update_channel_filter name filter m =
    (record m { channels = set_first name filter m.channels }, has_channel name m.channels)

-- ChannelsWithFilters
unfoldable pub channels_with_filters : Manager → List (String × ChannelFilter)
channels_with_filters m = map (λ entry. (entry.channel, entry.filter)) m.channels

unfoldable pub channel_names : Manager → List String
channel_names m = map (λ entry. entry.channel) m.channels

-- addHistory
unfoldable pub add_history : HistoryEntry → Manager → Manager
add_history entry m =
    let hist = m.history ++ record entry { id = length m.history + 1 } ∷ [] in
    record m {
      history = if ltb m.max_hist (length hist) then drop (length hist - m.max_hist) hist else hist;
    }

-- `alert.Time`, with the time of the call for a zero.
unfoldable pub stamped : ℕ → Alert → Alert
stamped now alert = if alert.time == 0 then record alert { time = now } else alert

-- The history entry for what a channel returned; its ID comes from addHistory.
unfoldable pub outcome_entry : ℕ → Alert → String → Option String → HistoryEntry
outcome_entry now alert name o = record {
  id = 0;
  channel = name;
  title = alert.title;
  message = alert.message;
  severity = alert.severity;
  source = alert.source;
  success = elim o [ none ↦ true | some err ↦ false ];
  error = elim o [ none ↦ "" | some err ↦ err ];
  sent_at = now;
}

module _ (deliver : String → ℕ → Alert → Option String) where
  -- The loop of Send, over the copy of the channels: the manager, and the names of the channels
  -- that were given the alert.
  unfoldable pub send_over : ℕ → Alert → List ChannelEntry → Manager → Manager × List String
  unfolding matches_filter add_history outcome_entry
  send_over now alert [] m = (m, [])
  send_over now alert (entry ∷ es) m =
      let name = entry.channel in
      let m' = add_history (outcome_entry now alert name (deliver name now alert)) m in
      let skipped = send_over now alert es m in
      let sent = send_over now alert es m' in
      if matches_filter entry.filter alert.severity alert.alert_type
      then (sent.0, name ∷ sent.1)
      else skipped

  unfoldable pub send : ℕ → Alert → Manager → Manager × List String
  unfolding send_over stamped
  send now alert m = send_over now (stamped now alert) m.channels m

  abbrev pub test_alert : ℕ → Alert
  test_alert now = record {
    title = "Test Notification";
    message = "This is a test notification from Klever Node Hub.";
    severity = severity_info;
    source = "system:test";
    alert_type = "";
    time = now;
  }

  -- SendTest: the error, if any.
  unfoldable pub send_test : ℕ → String → Manager → Option String
  unfolding has_channel
  send_test now name m =
      if has_channel name m.channels
      then deliver name now (test_alert now)
      else some (append_text "channel not found: " name)

-- History: `limit` is an int, and the callers pass no negative one.
unfoldable pub history_of : ℕ → Manager → List HistoryEntry
history_of limit m =
    let all = length m.history in
    let n = if limit == 0 || ltb all limit then all else limit in drop (all - n) m.history
