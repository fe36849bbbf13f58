-- ===== src/Agent/Executor/Names.antt =====
-- The names of containers that reach Docker.
use Prim.Native.String.{◌++◌}
use klever_node_hub.Prelude.{
  ◌≡◌, refl, sym, ap, ◌∙◌, String, Bool, true, false, List, [], ◌∷◌, Option, none, some, lookup,
  string_eq, ◌==◌, eq_iff, if◌then◌else◌, codes, ◌||◌, All, arith,
}
use klever_node_hub.Agent.Whitelist.{
  CommandSpec, CommandError, allowed_commands, validate_spec, matches_name, validate_command,
}
use klever_node_hub.Agent.Executor.{
  Payload, Failure, Call, start_container, get_container_status, stop_container, restart_container,
  fetch_logs, remove_container, upgrade_container, restore_db, reset_db, create_node,
  provision_node, execute_restore_db, execute_reset_db, dispatch_rest, Reply, failed, replied, Host,
  Done, extract_string_field, extract_container_name, execute_config_write, dispatch, add_status,
  finish, upgrade, pull, execute_fetch_logs, pull_image, handler, write_config_file,
  default_stop_timeout, contains, other_actions, run_unless, ask, reply_done, restart_after_write,
  written, restart_reply,
}

-- A call that names a container names one that the pattern admits.
abbrev pub IsNamed : Call → Type 0
IsNamed (start_container n) = matches_name (codes n) ≡ true
IsNamed (get_container_status n) = matches_name (codes n) ≡ true
IsNamed (stop_container n t) = matches_name (codes n) ≡ true
IsNamed (restart_container n t) = matches_name (codes n) ≡ true
IsNamed (fetch_logs n p) = matches_name (codes n) ≡ true
IsNamed (remove_container n f) = matches_name (codes n) ≡ true
IsNamed (upgrade_container n t) = matches_name (codes n) ≡ true
IsNamed (restore_db n d w) = matches_name (codes n) ≡ true
IsNamed (reset_db n d) = matches_name (codes n) ≡ true
IsNamed _ = Unit

validate_spec-name :
    (container : String) (s : CommandSpec)
    → s.requires_container ≡ true
    → validate_spec container (some s) ≡ none
    → matches_name (codes container) ≡ true
validate_spec-name container s r h = ground arith

-- Accepted, and its row asks for a container.
validate_command-name :
    (action container : String) (s : CommandSpec)
    → lookup action allowed_commands ≡ some s
    → s.requires_container ≡ true
    → validate_command action container ≡ none
    → matches_name (codes container) ≡ true
unfolding validate_command
validate_command-name action container s found r h =
    validate_spec-name container s r (ap (validate_spec container) (sym found) ∙ h)

abbrev pub IsNamedDone : Done → Type 0
IsNamedDone d = All IsNamed d.calls

if-IsNamed :
    (b : Bool) (x y : Done)
    → (b ≡ true → IsNamedDone x)
    → (b ≡ false → IsNamedDone y)
    → IsNamedDone (if b then x else y)
if-IsNamed true x y hx hy = hx refl
if-IsNamed false x y hx hy = hy refl

reply_done-IsNamed :
    (host : Host) (calls : List Call) (say : String → String) (r : Reply)
    → All IsNamed calls
    → IsNamedDone (reply_done host calls say r)
reply_done-IsNamed host calls say (failed e) h = h
reply_done-IsNamed host calls say (replied s) h = h

restart_reply-IsNamed :
    (host : Host) (calls : List Call) (out : String) (r : Reply)
    → All IsNamed calls
    → IsNamedDone (restart_reply host calls out r)
restart_reply-IsNamed host calls out (failed e) h = h
restart_reply-IsNamed host calls out (replied s) h = h

ask-IsNamed :
    (host : Host) (call : Call) (say : String → String)
    → IsNamed call
    → IsNamedDone (ask host call say)
ask-IsNamed host call say h = reply_done-IsNamed host (call ∷ []) say (host [] call) (h, tt)

restart_after_write-IsNamed :
    (host : Host) (calls : List Call) (out name : String)
    → All IsNamed calls
    → IsNamedDone (restart_after_write host calls out name)
restart_after_write-IsNamed host calls out name h =
    let call = restart_container name default_stop_timeout in
    if-IsNamed (name == "") _ _ (λ e. h)
      (λ e.
        if-IsNamed (matches_name (codes name)) _ _
          (λ m. restart_reply-IsNamed host (call ∷ calls) out (host calls call) (m, h)) (λ m. h))

written-IsNamed :
    (host : Host) (calls : List Call) (file restart : String) (r : Reply)
    → All IsNamed calls
    → IsNamedDone (written host calls file restart r)
written-IsNamed host calls file restart (failed e) h = h
written-IsNamed host calls file restart (replied s) h =
    restart_after_write-IsNamed host calls ("written: " ++ file) restart h

execute_config_write-IsNamed :
    (host : Host) (p : Payload) → IsNamedDone (execute_config_write host p)
unfolding execute_config_write
execute_config_write-IsNamed host p =
    let dir = extract_string_field p "data_dir" in
    let file = extract_string_field p "file_name" in
    let call = write_config_file dir file (extract_string_field p "content") in
    if-IsNamed ((dir == "") || (file == "")) _ _ (λ e. tt)
      (λ e.
        written-IsNamed host (call ∷ []) file (extract_string_field p "restart_container")
          (host [] call) (tt, tt))

upgrade-IsNamed :
    (host : Host) (container tag : String)
    → matches_name (codes container) ≡ true
    → IsNamedDone (upgrade host container tag)
upgrade-IsNamed host container tag h =
    if-IsNamed (tag == "") _ _ (λ e. tt)
      (λ e. ask-IsNamed host (upgrade_container container tag) _ h)

pull-IsNamed : (host : Host) (image : String) → IsNamedDone (pull host image)
pull-IsNamed host image =
    if-IsNamed (image == "") _ _ (λ e. tt) (λ e. ask-IsNamed host (pull_image image) _ tt)

fetch-IsNamed :
    (host : Host) (p : Payload)
    → matches_name (codes (extract_container_name p)) ≡ true
    → IsNamedDone (execute_fetch_logs host p)
unfolding extract_container_name
fetch-IsNamed host p h =
    let name = extract_container_name p in
    if-IsNamed (name == "") _ _ (λ e. tt) (λ e. ask-IsNamed host (fetch_logs name p) _ h)

-- An accepted command whose action needs a container has a name that the pattern admits.
name_for :
    (literal action container : String) (s : CommandSpec)
    → lookup literal allowed_commands ≡ some s
    → s.requires_container ≡ true
    → validate_command action container ≡ none
    → (action == literal) ≡ true
    → matches_name (codes container) ≡ true
name_for literal action container s found r valid same =
    let e = (eq_iff action literal).0 same in
    validate_command-name action container s (ap (λ a. lookup a allowed_commands) e ∙ found) r valid

restore-IsNamed :
    (host : Host) (p : Payload)
    → matches_name (codes (extract_container_name p)) ≡ true
    → IsNamedDone (execute_restore_db host p)
unfolding extract_container_name execute_restore_db
restore-IsNamed host p h =
    let name = extract_container_name p in
    if-IsNamed (name == "") _ _ (λ e. tt)
      (λ e.
        if-IsNamed (extract_string_field p "data_dir" == "") _ _ (λ e. tt)
          (λ e. ask-IsNamed host (restore_db name _ _) _ h))

reset-IsNamed :
    (host : Host) (p : Payload)
    → matches_name (codes (extract_container_name p)) ≡ true
    → IsNamedDone (execute_reset_db host p)
unfolding extract_container_name execute_reset_db
reset-IsNamed host p h =
    let name = extract_container_name p in
    if-IsNamed (name == "") _ _ (λ e. tt)
      (λ e.
        if-IsNamed (extract_string_field p "data_dir" == "") _ _ (λ e. tt)
          (λ e. ask-IsNamed host (reset_db name _) _ h))

-- The second half of the switch.
dispatch_rest-IsNamed :
    (host : Host) (action : String) (p : Payload)
    → validate_command action (extract_container_name p) ≡ none
    → IsNamedDone (dispatch_rest host action p)
unfolding dispatch_rest lookup
dispatch_rest-IsNamed host action p valid =
    let container = extract_container_name p in
    if-IsNamed (action == "node.create") _ _ (λ e. ask-IsNamed host (create_node p) (λ s. s) tt)
      (λ n.
        if-IsNamed (action == "node.provision") _ _
          (λ e. ask-IsNamed host (provision_node p) (λ s. s) tt)
          (λ n.
            if-IsNamed (action == "node.restore-db") _ _
              (λ e.
                restore-IsNamed host p
                  (name_for "node.restore-db" action container _ refl refl valid e))
              (λ n.
                if-IsNamed (action == "node.reset-db") _ _
                  (λ e.
                    reset-IsNamed host p
                      (name_for "node.reset-db" action container _ refl refl valid e))
                  (λ n.
                    if-IsNamed (contains action other_actions) _ _
                      (λ e. ask-IsNamed host (handler action) (λ s. s) tt) (λ n. tt)))))

dispatch-IsNamed :
    (host : Host) (action : String) (p : Payload)
    → validate_command action (extract_container_name p) ≡ none
    → IsNamedDone (dispatch host action (extract_container_name p) p)
unfolding dispatch extract_container_name lookup
dispatch-IsNamed host action p valid =
    let container = extract_container_name p in
    if-IsNamed (action == "node.start") _ _
      (λ e.
        ask-IsNamed host (start_container container) (λ s. "")
          (name_for "node.start" action container _ refl refl valid e))
      (λ n.
        if-IsNamed (action == "node.stop") _ _
          (λ e.
            ask-IsNamed host (stop_container container default_stop_timeout) (λ s. "")
              (name_for "node.stop" action container _ refl refl valid e))
          (λ n.
            if-IsNamed (action == "node.restart") _ _
              (λ e.
                ask-IsNamed host (restart_container container default_stop_timeout) (λ s. "")
                  (name_for "node.restart" action container _ refl refl valid e))
              (λ n.
                if-IsNamed (action == "node.status") _ _
                  (λ e.
                    ask-IsNamed host (get_container_status container) (λ s. s)
                      (name_for "node.status" action container _ refl refl valid e))
                  (λ n.
                    if-IsNamed (action == "node.remove") _ _
                      (λ e.
                        ask-IsNamed host (remove_container container true) (λ s. "")
                          (name_for "node.remove" action container _ refl refl valid e))
                      (λ n.
                        if-IsNamed (action == "node.upgrade") _ _
                          (λ e.
                            upgrade-IsNamed host container (extract_string_field p "image_tag")
                              (name_for "node.upgrade" action container _ refl refl valid e))
                          (λ n.
                            if-IsNamed (action == "node.pull") _ _
                              (λ e. pull-IsNamed host (extract_string_field p "image"))
                              (λ n.
                                if-IsNamed (action == "config.write") _ _
                                  (λ e. execute_config_write-IsNamed host p)
                                  (λ n.
                                    if-IsNamed (action == "node.logs") _ _
                                      (λ e.
                                        fetch-IsNamed host p (
                                          name_for "node.logs" action container _ refl refl valid
                                            e))
                                      (λ n.
                                        if-IsNamed (action == "agent.restart") _ _ (λ e. tt)
                                          (λ n. dispatch_rest-IsNamed host action p valid))))))))))

status-IsNamed :
    (host : Host) (b : Bool) (container : String) (d : Done)
    → (b ≡ true → matches_name (codes container) ≡ true)
    → IsNamedDone d
    → IsNamedDone (add_status host b container d)
status-IsNamed host true container d ok h = (ok refl, h)
status-IsNamed host false container d ok h = h

finish-IsNamed :
    (host : Host) (action container : String) (d : Done) (o : Option Failure)
    → validate_command action container ≡ none
    → IsNamedDone d
    → IsNamedDone (finish host action container d o)
unfolding lookup
finish-IsNamed host action container d (some e) valid h = h
finish-IsNamed host action container d none valid h =
    status-IsNamed host
      ((action == "node.start") || (action == "node.stop") || (action == "node.restart")) container
      d
      (λ e. ground (
        arith,
        e,
        name_for "node.start" action container _ refl refl valid,
        name_for "node.stop" action container _ refl refl valid,
        name_for "node.restart" action container _ refl refl valid,
      ))
      h

pub run_unless-IsNamed :
    (host : Host) (action : String) (p : Payload) (o : Option CommandError)
    → validate_command action (extract_container_name p) ≡ o
    → IsNamedDone (run_unless host o action (extract_container_name p) p)
run_unless-IsNamed host action p (some e) valid = tt
run_unless-IsNamed host action p none valid =
    let container = extract_container_name p in
    let d = dispatch host action container p in
    finish-IsNamed host action container d d.error valid (dispatch-IsNamed host action p valid)
