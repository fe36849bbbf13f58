-- ===== src/Dashboard/Registration/Tests.antt =====
-- Tokens over a short history.
use klever_node_hub.Prelude.{
  ◌≡◌, true, false, List, [], ◌∷◌, arith, ℕ, ◌+◌, refl, String, some, lookup, insert, retain,
}
use klever_node_hub.Dashboard.Registration.{new_token_manager, validate, token_expiry}
use klever_node_hub.Dashboard.Registration.Tokens.{
  Call, generates, counts, run, step, standing, stand_step, validate-run,
}

abbrev encode : List ℕ → String
encode [] = ""
encode (b ∷ bs) = "tok"

abbrev history : List (ℕ × Call)
history = (5, generates (some (1 ∷ []))) ∷ (6, counts) ∷ []

validate-run_example : (validate (run encode new_token_manager history) "tok" 9).1 ≡ true
unfolding standing stand_step
validate-run_example = validate-run encode history "tok" 9 (omega arith)

accepted : (validate (run encode new_token_manager history) "tok" 9).1 ≡ true
unfolding validate run step new_token_manager lookup insert retain
accepted = refl

expired : (validate (run encode new_token_manager history) "tok" (token_expiry + 6)).1 ≡ false
unfolding validate run step new_token_manager lookup insert retain
expired = refl
