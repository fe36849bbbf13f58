-- ===== src/Agent/Whitelist.antt =====
-- internal/agent/whitelist.go: which commands an agent accepts.
use klever_node_hub.Prelude.{
  ℕ, String, Bool, true, false, List, [], ◌∷◌, Option, none, some, Map, lookup, string_eq, ◌==◌,
  if◌then◌else◌, codes, leb, nat_beq, ◌&&◌, ◌||◌,
}

pub record CommandSpec : Type 0 where
  pub description : String
  pub requires_container : Bool

abbrev spec : String → String → Bool → String × CommandSpec
spec action description required =
    (action, record { description = description; requires_container = required })

abbrev pub allowed_commands : Map String CommandSpec
allowed_commands =
    spec "node.start" "Start a Klever node container" true
    ∷ spec "node.stop" "Stop a Klever node container" true
    ∷ spec "node.restart" "Restart a Klever node container" true
    ∷ spec "node.status" "Get status of a Klever node container" true
    ∷ spec "node.create" "Create a new Klever node container" false
    ∷ spec "node.remove" "Remove a Klever node container" true
    ∷ spec "node.upgrade" "Upgrade a Klever node to a new image tag" true
    ∷ spec "node.pull" "Pull a Docker image" false
    ∷ spec "node.provision" "Provision a new Klever node from scratch" false
    ∷ spec "node.restore-db" "Restore a node's chain DB from the official Klever backup" true
    ∷ spec "node.reset-db" "Delete a node's chain DB and re-bootstrap from the latest epoch" true
    ∷ spec "node.discovery" "Scan for existing Klever nodes" false
    ∷ spec "docker.images.list" "List local Klever Docker images" false
    ∷ spec "docker.images.remove" "Remove unused Klever Docker images" false
    ∷ spec "config.list" "List configuration files for a node" false
    ∷ spec "config.read" "Read a configuration file" false
    ∷ spec "config.write" "Write a configuration file (auto-backup)" false
    ∷ spec "config.backup" "Create a backup of a configuration file" false
    ∷ spec "config.backups" "List backups of a configuration file" false
    ∷ spec "config.restore" "Restore a configuration file from backup" false
    ∷ spec "config.upgrade" "Download and apply new Klever configs during upgrade" false
    ∷ spec "config.version-backups" "List version-labeled config backups" false
    ∷ spec "config.version-restore" "Restore config from a version backup" false
    ∷ spec "node.logs" "Fetch historical logs from a container" true
    ∷ spec "key.info" "Get validator key info" false
    ∷ spec "key.generate" "Generate a new BLS key pair" false
    ∷ spec "key.import" "Import a validator key" false
    ∷ spec "key.export" "Export a validator key" false
    ∷ spec "key.backup" "Backup the validator key" false
    ∷ spec "key.backups" "List validator key backups" false
    ∷ spec "agent.update" "Update agent binary" false
    ∷ spec "agent.restart" "Restart the agent process" false
    ∷ spec "server.benchmark" "Run server hardware benchmark" false
    ∷ []

abbrev pub is_alphanumeric : ℕ → Bool
is_alphanumeric c = (leb 97 c && leb c 122) || (leb 65 c && leb c 90) || (leb 48 c && leb c 57)

-- A letter, a digit, `.`, `_` or `-`.
abbrev pub is_name_char : ℕ → Bool
is_name_char c = is_alphanumeric c || nat_beq c 46 || nat_beq c 95 || nat_beq c 45

unfoldable pub all_name_chars : List ℕ → Bool
all_name_chars [] = true
all_name_chars (c ∷ cs) = is_name_char c && all_name_chars cs

-- containerNamePattern
unfoldable pub matches_name : List ℕ → Bool
unfolding all_name_chars
matches_name [] = false
matches_name (c ∷ cs) = is_alphanumeric c && all_name_chars cs

pub data CommandError : Type 0 where
  not_allowed no_container invalid_name : CommandError

abbrev pub validate_spec : String → Option CommandSpec → Option CommandError
validate_spec container none = some not_allowed
validate_spec container (some s) =
    if s.requires_container
    then if container == ""
      then some no_container
      else if matches_name (codes container)
      then none
      else some invalid_name
    else none

-- ValidateCommand; `none` is a nil error.
unfoldable pub validate_command : String → String → Option CommandError
validate_command action container = validate_spec container (lookup action allowed_commands)
