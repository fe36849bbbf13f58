-- ===== src/Agent/Executor/Handled.antt =====
-- Each action of the table has a handler.
use klever_node_hub.Prelude.{
  ◌≡◌, ◌⊎◌, String, Bool, true, false, List, [], ◌∷◌, Option, none, some, Map, string_eq, ◌==◌,
  ◌||◌, ◌&&◌,
}
use klever_node_hub.Agent.Whitelist.{CommandSpec, CommandError}
use klever_node_hub.Agent.Executor.{
  Failure, unhandled, rejected, run_error, Call, Host, Reply, failed, replied, Done, contains,
  other_actions,
}

rest_handles : String → Bool
rest_handles action =
    (action == "node.create")
    || (action == "node.provision")
    || (action == "node.restore-db")
    || (action == "node.reset-db")
    || contains action other_actions

-- The actions of the switch.
has_handler : String → Bool
has_handler action =
    (action == "node.start")
    || (action == "node.stop")
    || (action == "node.restart")
    || (action == "node.status")
    || (action == "node.remove")
    || (action == "node.upgrade")
    || (action == "node.pull")
    || (action == "config.write")
    || (action == "node.logs")
    || (action == "agent.restart")
    || rest_handles action

all_handled : Map String CommandSpec → Bool
all_handled [] = true
all_handled ((a, s) ∷ table) = has_handler a && all_handled table

-- The call that was made first.
abbrev pub first_call : List Call → Option Call
first_call [] = none
first_call (c ∷ []) = some c
first_call (c ∷ d ∷ cs) = first_call (d ∷ cs)

-- The error that an answer stands for.
abbrev pub reply_error : Reply → Option Failure
reply_error (failed e) = some (run_error e)
reply_error (replied s) = none

-- An error of a handler's own, not one that says that there is no handler or that the command is
-- refused.
abbrev pub is_own_error : Option Failure → Bool
is_own_error none = false
is_own_error (some (run_error e)) = true
is_own_error (some unhandled) = false
is_own_error (some (rejected e)) = false

-- The error of a command whose first call is given: that of the answer; without a call, an error of
-- the handler's own, or none if the agent is to be restarted.
abbrev pub IsErrorOf : Host → String → Option Call → Option Failure → Type 0
IsErrorOf host action none e = (is_own_error e ≡ true) ⊎ ((action ≡ "agent.restart") × (e ≡ none))
IsErrorOf host action (some call) e = e ≡ reply_error (host [] call)

abbrev IsRun : Host → String → Done → Type 0
IsRun host action d = IsErrorOf host action (first_call d.calls) d.error

-- A command that is refused makes no call and says why; any other has the error of its first call.
abbrev pub IsAnswered : Host → String → Option CommandError → Done → Type 0
IsAnswered host action (some e) d = (d.calls ≡ []) × (d.error ≡ some (rejected e))
IsAnswered host action none d = IsErrorOf host action (first_call d.calls) d.error
