-- ===== src/Ws/AgentAuth/Tests.antt =====
-- Upgrades of one agent, whose signature is always good.
use klever_node_hub.Prelude.{
  ℕ, ◌*◌, ◌≡◌, refl, true, false, List, [], ◌∷◌, some, none, arith, string_eq, lookup, insert,
  retain, zero, suc, String,
}
use klever_node_hub.Alerting.Process.{second}
use klever_node_hub.Ws.AgentAuth.{
  AgentHandler, Primitives, pos, authenticate_agent, verify_agent_auth, in_window, remember_nonce,
}
use klever_node_hub.Ws.AgentAuth.Replay.{Attempt, try, run, no_replay}
use klever_node_hub.Ws.AgentAuth.Downgrade.{no_downgrade, far_ahead_never_expires}

abbrev lenient : Primitives
lenient = record { decode_base64 = λ s. some []; verify = λ k m s. true; format_int = λ ts. "ts" }

abbrev zeros : ℕ → List ℕ
zeros zero = []
zeros (suc n) = 0 ∷ zeros n

abbrev attempt : ℕ → String → Attempt
attempt t sig = record {
  now = t * second;
  require_signed = false;
  update_ok = true;
  server = record { id = "s1"; key = some (zeros 32) };
  request = record { signature = sig; timestamp = some (pos 1000); nonce = "n" };
}

abbrev fresh : AgentHandler
fresh = record { seen_nonces = []; signed = ("s1", false) ∷ [] }

accepted : (try lenient (attempt 1010 "sig") fresh).1 ≡ true
unfolding authenticate_agent verify_agent_auth in_window remember_nonce lookup insert retain
accepted = refl

no_replay_example :
    (try lenient
      (attempt 1200 "sig")
      (run lenient (try lenient (attempt 1010 "sig") fresh).0 (attempt 1100 "other" ∷ []))).1
    ≡ false
no_replay_example =
    no_replay lenient fresh (attempt 1010 "sig") (attempt 1200 "sig") (attempt 1100 "other" ∷ []) tt
      refl accepted (omega arith) (omega arith) refl refl

no_downgrade_example :
    (try lenient
      (attempt 1200 "")
      (run lenient (try lenient (attempt 1010 "sig") fresh).0 (attempt 1100 "" ∷ []))).1
    ≡ false
no_downgrade_example =
    no_downgrade lenient fresh (attempt 1010 "sig") (attempt 1200 "") (attempt 1100 "" ∷ []) refl
      refl accepted refl refl

far_ahead_never_expires_example :
    verify_agent_auth lenient (zeros 32) "s1" (pos 30000000000) "n" "sig" (2000000000 * second)
    ≡ none
far_ahead_never_expires_example =
    far_ahead_never_expires lenient (zeros 32) [] "s1" "n" "sig" 30000000000 (2000000000 * second)
      (omega arith, omega arith) (λ e. cc) (omega arith) refl refl refl
