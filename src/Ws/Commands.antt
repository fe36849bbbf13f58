-- ===== src/Ws/Commands.antt =====
-- internal/dashboard/ws/hub.go, SendCommand and HandleResult: commands that wait for their result.
-- A pendingCommand is an object on a heap; `given` holds what its result channel was given, first
-- things first, so that SendCommand returns the head. The steps are the sections under the locks.
use klever_node_hub.Prelude.{
  ℕ, suc, ◌+◌, String, Bool, true, false, List, [], ◌∷◌, ◌++◌, Option, none, some, Map, lookup,
  insert, delete, ◌==◌, string_eq, nat_eq, if◌then◌else◌, length, or_nil,
}
use klever_node_hub.Ws.Hub.{
  Hub, SendResult, sent, not_connected, buffer_full, panics, is_connected, send,
}
pub mod Answers
pub mod Tests

-- models.CommandResult, as far as it is told apart here.
pub record CommandResult : Type 0 where
  pub command_id : String
  pub output : String
  pub error : String

pub record Pending : Type 0 where
  pub pending : Map String ℕ
  pub given : Map ℕ (List CommandResult)
  pub next : ℕ

unfoldable pub no_pending : Pending
no_pending = record { pending = []; given = []; next = 0 }

-- What the channel of the command at an address was given.
abbrev pub given_at : ℕ → Pending → List CommandResult
given_at c p = or_nil (lookup c p.given)

-- SendCommand, until the command is entered: the address of the entry.
unfoldable pub enter : String → Pending → Pending × ℕ
enter id p = (
  record p {
    pending = insert id p.next p.pending;
    given = insert p.next [] p.given;
    next = suc p.next;
  },
  p.next,
)

-- Gives a result to the command that an ID stands for.
give : CommandResult → String → Pending → Option ℕ → Pending
give r id p none = p
give r id p (some c) = record p {
  pending = delete id p.pending;
  given = insert c (given_at c p ++ r ∷ []) p.given;
}

-- HandleResult
unfoldable pub handle_result : CommandResult → Pending → Pending
unfolding give
handle_result r p = give r r.command_id p (lookup r.command_id p.pending)

abbrev pub timed_out : String → CommandResult
timed_out id = record { command_id = id; output = ""; error = "command timed out" }

-- The function that the timer of a command runs.
unfoldable pub time_out : String → Pending → Pending
unfolding give
time_out id p = give (timed_out id) id p (lookup id p.pending)

-- What SendCommand does if Send fails.
unfoldable pub withdraw : String → Pending → Pending
withdraw id p = record p { pending = delete id p.pending }

pub data Started : Type 0 where
  offline : Started
  failed : SendResult → Started
  waiting : ℕ → Started

unfoldable pub after_send : String → Hub × SendResult → Pending × ℕ → Hub × Pending × Started
after_send id (h, sent) (p, c) = (h, p, waiting c)
after_send id (h, not_connected) (p, c) = (h, withdraw id p, failed not_connected)
after_send id (h, buffer_full) (p, c) = (h, withdraw id p, failed buffer_full)
after_send id (h, panics) (p, c) = (h, p, failed panics)

-- SendCommand, until it waits for the result, where nothing comes in between.
unfoldable pub send_command : String → String → String → Hub → Pending → Hub × Pending × Started
unfolding after_send
send_command server_id id msg h p =
    if is_connected server_id h
    then after_send id (send server_id msg h) (enter id p)
    else (h, p, offline)

unfoldable pub pending_count : Pending → ℕ
pending_count p = length p.pending

-- PendingCommandIDs
unfoldable pub keys : Map String ℕ → List String
keys [] = []
keys ((id, c) ∷ m) = id ∷ keys m
