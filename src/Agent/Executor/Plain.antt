-- ===== src/Agent/Executor/Plain.antt =====
-- The names of containers in the requests to Docker.
use klever_node_hub.Prelude.{ℕ, ◌≡◌, ◌≢◌, String, Bool, false, nat_beq, codes, ◌||◌, All}
use klever_node_hub.Agent.Executor.{
  Call, start_container, get_container_status, stop_container, restart_container, fetch_logs,
  remove_container, upgrade_container, restore_db, reset_db,
}

-- Characters that end or change the path of a URL: the slash, `?`, `#` and `%`.
abbrev pub is_reserved : ℕ → Bool
is_reserved c = nat_beq c 47 || nat_beq c 63 || nat_beq c 35 || nat_beq c 37

-- A text that stays one part of a path.
abbrev pub IsPathPart : String → Type 0
IsPathPart name = (name ≢ "") × All (λ c. is_reserved c ≡ false) (codes name)

-- A call that names a container names it by one part of a path.
abbrev pub IsPlain : Call → Type 0
IsPlain (start_container n) = IsPathPart n
IsPlain (get_container_status n) = IsPathPart n
IsPlain (stop_container n t) = IsPathPart n
IsPlain (restart_container n t) = IsPathPart n
IsPlain (fetch_logs n p) = IsPathPart n
IsPlain (remove_container n f) = IsPathPart n
IsPlain (upgrade_container n t) = IsPathPart n
IsPlain (restore_db n d w) = IsPathPart n
IsPlain (reset_db n d) = IsPathPart n
IsPlain _ = Unit
