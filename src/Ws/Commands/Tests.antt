-- ===== src/Ws/Commands/Tests.antt =====
-- Two commands: one that the agent answers after an unknown result, and one that times out.
use klever_node_hub.Prelude.{
  ◌≡◌, refl, List, [], ◌∷◌, String, string_eq, nat_eq, lookup, insert, delete,
}
use klever_node_hub.Ws.Hub.{new_hub, is_connected}
use klever_node_hub.Ws.Commands.{
  CommandResult, offline, no_pending, given_at, enter, handle_result, time_out, timed_out,
  send_command,
}
use klever_node_hub.Ws.Commands.Answers.{
  Step, enters, results, expires, run, step, IsSafe, no_pending-IsSafe, run-IsSafe, first_answer,
  run-answers,
}

abbrev answer : String → CommandResult
answer id = record { command_id = id; output = "done"; error = "" }

abbrev steps : List Step
steps = enters "b" ∷ results (answer "x") ∷ results (answer "a") ∷ expires "a" ∷ expires "b" ∷ []

run-answers_example :
    given_at (enter "a" no_pending).1 (run steps (enter "a" no_pending).0) ≡ answer "a" ∷ []
unfolding first_answer
run-answers_example =
    run-answers "a" steps no_pending no_pending-IsSafe (refl, (tt, (tt, (tt, (tt, tt)))))

run-IsSafe_example : IsSafe (run (enters "a" ∷ steps) no_pending)
run-IsSafe_example = run-IsSafe (enters "a" ∷ steps) no_pending no_pending-IsSafe

late : given_at 1 (run (enters "a" ∷ steps) no_pending) ≡ timed_out "b" ∷ []
unfolding run step enter handle_result time_out no_pending lookup insert delete
late = refl

nobody : (send_command "s" "a" "stop" new_hub no_pending).2 ≡ offline
unfolding send_command is_connected new_hub lookup
nobody = refl
