-- ===== src/Agent/Executor/Tests.antt =====
-- Commands to a host whose answers are all good.
use klever_node_hub.Prelude.{◌≡◌, refl, String, [], ◌∷◌, some, lookup}
use klever_node_hub.Agent.Whitelist.{invalid_name, validate_command, matches_name, all_name_chars}
use klever_node_hub.Agent.Executor.{
  Payload, text, start_container, get_container_status, rejected, replied, Host,
  extract_container_name, extract_string_field, dispatch, execute,
}

abbrev good_host : Host
good_host = λ before call. replied "ok"

abbrev named : String → Payload
named name = ("container_name", text name) ∷ []

two_calls :
    (execute good_host "node.start" (named "klever-node1")).calls
    ≡ get_container_status "klever-node1" ∷ start_container "klever-node1" ∷ []
unfolding execute dispatch validate_command matches_name all_name_chars extract_container_name
    extract_string_field lookup
two_calls = refl

bad_name : (execute good_host "node.stop" (named "a/../b")).error ≡ some (rejected invalid_name)
unfolding execute dispatch validate_command matches_name all_name_chars extract_container_name
    extract_string_field lookup
bad_name = refl
