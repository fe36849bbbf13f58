-- ===== src/Agent/Executor.antt =====
-- internal/agent/executor.go, Execute: from a command to the calls of Docker. A payload is a map of
-- fields. What Docker and the other handlers answer is an argument (`Host`), which may depend on the
-- calls before; they are kept latest first.
use Prim.Native.String.{◌++◌}
use klever_node_hub.Prelude.{
  ℕ, zero, suc, String, Bool, true, false, List, [], ◌∷◌, Option, none, some, Map, lookup,
  string_eq, ◌==◌, if◌then◌else◌, codes, ◌||◌,
}
use klever_node_hub.Agent.Whitelist.{
  CommandError, not_allowed, no_container, invalid_name, matches_name, validate_command,
}
pub mod Names
pub mod Plain
pub mod Handled
pub mod Tests

-- A field of a payload; only texts are read here.
pub data Field : Type 0 where
  text : String → Field
  other_value : Field

abbrev pub Payload : Type 0
Payload = Map String Field

abbrev pub text_or_empty : Option Field → String
text_or_empty (some (text s)) = s
text_or_empty _ = ""

-- extractStringField
unfoldable pub extract_string_field : Payload → String → String
extract_string_field p field = text_or_empty (lookup field p)

-- extractContainerName
unfoldable pub extract_container_name : Payload → String
unfolding extract_string_field
extract_container_name p = extract_string_field p "container_name"

-- What went wrong: the command is refused, has no handler, or its handler gives an error.
pub data Failure : Type 0 where
  rejected : CommandError → Failure
  unhandled : Failure
  run_error : String → Failure

-- What a command asks for: the calls of Docker that name a container, and all else. RestoreDB and
-- ResetDBFastBootstrap take the container, the data directory and, the first, the network; the
-- creation of a node takes its payload.
pub data Call : Type 0 where
  start_container get_container_status : String → Call
  stop_container restart_container : String → ℕ → Call
  fetch_logs : String → Payload → Call
  remove_container : String → Bool → Call
  upgrade_container : String → String → Call
  pull_image : String → Call
  write_config_file : String → String → String → Call
  restore_db : String → String → String → Call
  reset_db : String → String → Call
  create_node provision_node : Payload → Call
  handler : String → Call

pub data Reply : Type 0 where
  failed replied : String → Reply

abbrev pub Host : Type 0
Host = List Call → Call → Reply

-- What a handler did, and its result.
pub record Done : Type 0 where
  pub calls : List Call
  pub output : String
  pub error : Option Failure

abbrev pub default_stop_timeout : ℕ
default_stop_timeout = 30

abbrev pub error_done : List Call → String → Done
error_done calls e = record { calls = calls; output = ""; error = some (run_error e) }

abbrev pub output_done : List Call → String → Done
output_done calls s = record { calls = calls; output = s; error = none }

-- The first n characters of a text.
abbrev pub first_chars : ℕ → String → String
first_chars zero s = ""
first_chars (suc n) String.[] = ""
first_chars (suc n) (String.◌∷◌ c s) = String.◌∷◌ c (first_chars n s)

unfoldable pub contains : String → List String → Bool
contains s [] = false
contains s (t ∷ ts) = if t == s then true else contains s ts

-- The actions of the switch whose handlers are answers of the host here.
abbrev pub other_actions : List String
other_actions =
    "docker.images.list" ∷ "docker.images.remove" ∷ "node.discovery" ∷ "config.list" ∷ "config.read"
    ∷ "config.backup" ∷ "config.backups" ∷ "config.restore" ∷ "config.upgrade"
    ∷ "config.version-backups" ∷ "config.version-restore" ∷ "key.info" ∷ "key.generate"
    ∷ "key.import" ∷ "key.export" ∷ "key.backup" ∷ "key.backups" ∷ "agent.update"
    ∷ "server.benchmark" ∷ []

module _ (host : Host) where
  abbrev pub reply_done : List Call → (String → String) → Reply → Done
  reply_done calls say (failed e) = error_done calls e
  reply_done calls say (replied s) = output_done calls (say s)

  -- One call; the output is made of its answer.
  abbrev pub ask : Call → (String → String) → Done
  ask call say = reply_done (call ∷ []) say (host [] call)

  -- The end of executeConfigWrite: the answer of the restart.
  abbrev pub restart_reply : List Call → String → Reply → Done
  restart_reply calls out (failed e) =
      output_done calls (out ++ (" (restart failed: " ++ (e ++ ")")))
  restart_reply calls out (replied s) = output_done calls (out ++ " (container restarted)")

  abbrev pub restart_after_write : List Call → String → String → Done
  restart_after_write calls out name =
      let call = restart_container name default_stop_timeout in
      if name == ""
      then output_done calls out
      else if matches_name (codes name)
      then restart_reply (call ∷ calls) out (host calls call)
      else output_done calls (out ++ " (restart skipped: invalid container name)")

  abbrev pub written : List Call → String → String → Reply → Done
  written calls file restart (failed e) = error_done calls e
  written calls file restart (replied s) = restart_after_write calls ("written: " ++ file) restart

  -- executeConfigWrite
  unfoldable pub execute_config_write : Payload → Done
  execute_config_write p =
      let dir = extract_string_field p "data_dir" in
      let file = extract_string_field p "file_name" in
      let call = write_config_file dir file (extract_string_field p "content") in
      if (dir == "") || (file == "")
      then error_done [] "data_dir, file_name are required"
      else written (call ∷ []) file (extract_string_field p "restart_container") (host [] call)

  -- Docker's names of containers have 64 characters, so that the slice of 12 is within the text.
  abbrev pub upgrade : String → String → Done
  upgrade container tag =
      if tag == ""
      then error_done [] "image_tag is required for upgrade"
      else ask (upgrade_container container tag)
          (λ id. "upgraded to " ++ (tag ++ (" (container: " ++ (first_chars 12 id ++ ")"))))

  abbrev pub pull : String → Done
  pull image =
      if image == ""
      then error_done [] "image is required for pull"
      else ask (pull_image image) (λ s. "pulled " ++ image)

  -- executeFetchLogs
  abbrev pub execute_fetch_logs : Payload → Done
  execute_fetch_logs p =
      let name = extract_string_field p "container_name" in
      if name == ""
      then error_done [] "container_name is required"
      else ask (fetch_logs name p) (λ s. s)

  abbrev pub or_mainnet : String → String
  or_mainnet network = if network == "" then "mainnet" else network

  -- executeRestoreDB
  unfoldable pub execute_restore_db : Payload → Done
  execute_restore_db p =
      let name = extract_string_field p "container_name" in
      let dir = extract_string_field p "data_dir" in
      if name == ""
      then error_done [] "container_name is required"
      else if dir == ""
      then error_done [] "data_dir is required"
      else ask (restore_db name dir (or_mainnet (extract_string_field p "network")))
          (λ s. "chain DB restored for " ++ name)

  -- executeResetDB
  unfoldable pub execute_reset_db : Payload → Done
  execute_reset_db p =
      let name = extract_string_field p "container_name" in
      let dir = extract_string_field p "data_dir" in
      if name == ""
      then error_done [] "container_name is required"
      else if dir == ""
      then error_done [] "data_dir is required"
      else ask (reset_db name dir) (λ s. "chain DB reset for " ++ name)

  -- The switch of Execute, from node.create on
  unfoldable pub dispatch_rest : String → Payload → Done
  dispatch_rest action p =
      if action == "node.create"
      then ask (create_node p) (λ s. s)
      else if action == "node.provision"
      then ask (provision_node p) (λ s. s)
      else if action == "node.restore-db"
      then execute_restore_db p
      else if action == "node.reset-db"
      then execute_reset_db p
      else if contains action other_actions
      then ask (handler action) (λ s. s)
      else record { calls = []; output = ""; error = some unhandled }

  -- The switch of Execute
  unfoldable pub dispatch : String → String → Payload → Done
  dispatch action container p =
      if action == "node.start"
      then ask (start_container container) (λ s. "")
      else if action == "node.stop"
      then ask (stop_container container default_stop_timeout) (λ s. "")
      else if action == "node.restart"
      then ask (restart_container container default_stop_timeout) (λ s. "")
      else if action == "node.status"
      then ask (get_container_status container) (λ s. s)
      else if action == "node.remove"
      then ask (remove_container container true) (λ s. "")
      else if action == "node.upgrade"
      then upgrade container (extract_string_field p "image_tag")
      else if action == "node.pull"
      then pull (extract_string_field p "image")
      else if action == "config.write"
      then execute_config_write p
      else if action == "node.logs"
      then execute_fetch_logs p
      else if action == "agent.restart"
      then output_done [] "restarting"
      else dispatch_rest action p

  abbrev pub status_output : String → Reply → String
  status_output out (failed e) = out
  status_output out (replied s) = s

  -- The status after a container was started, stopped or restarted.
  abbrev pub add_status : Bool → String → Done → Done
  add_status lifecycle container d =
      let call = get_container_status container in
      if lifecycle
      then record {
        calls = call ∷ d.calls;
        output = status_output d.output (host d.calls call);
        error = none;
      }
      else d

  abbrev pub finish : String → String → Done → Option Failure → Done
  finish action container d (some e) = d
  finish action container d none =
      add_status ((action == "node.start") || (action == "node.stop") || (action == "node.restart"))
        container d

  abbrev pub run_unless : Option CommandError → String → String → Payload → Done
  run_unless (some e) action container p = record {
    calls = [];
    output = "";
    error = some (rejected e);
  }
  run_unless none action container p =
      let d = dispatch action container p in finish action container d d.error

  -- Execute: Success holds when there is no error.
  unfoldable pub execute : String → Payload → Done
  execute action p =
      let container = extract_container_name p in
      run_unless (validate_command action container) action container p
