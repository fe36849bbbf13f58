-- ===== src/Ws/Commands/Answers.antt =====
-- Every command that waits is given one result, the first that comes.
use klever_node_hub.Prelude.{
  ℕ, ◌≤◌, ◌<◌, ◌≡◌, ◌≢◌, refl, ◌∙◌, String, true, false, List, [], ◌∷◌, ◌++◌, Option, none, some,
  lookup, ◌==◌, string_eq, nat_eq, nat_beq_iff, eq_iff, if◌then◌else◌, length, arith, lookup-insert,
  lookup-delete, Bool-cases, All, inl, inr,
}
use klever_node_hub.Ws.Commands.{
  CommandResult, Pending, no_pending, given_at, enter, give, handle_result, timed_out, time_out,
  withdraw,
}

-- What the requests, the agents' messages and the timers do, in the order of the locks.
pub data Step : Type 0 where
  enters : String → Step
  withdraws : String → Step
  results : CommandResult → Step
  expires : String → Step

unfoldable pub step : Step → Pending → Pending
step (enters id) p = (enter id p).0
step (withdraws id) p = withdraw id p
step (results r) p = handle_result r p
step (expires id) p = time_out id p

unfoldable pub run : List Step → Pending → Pending
unfolding step
run [] p = p
run (s ∷ ss) p = run ss (step s p)

pub record IsSafe (p : Pending) : Type 0 where
  pub below : (id : String) (c : ℕ) → lookup id p.pending ≡ some c → c < p.next
  pub apart :
      (i j : String) (c : ℕ) → lookup i p.pending ≡ some c → lookup j p.pending ≡ some c → i ≡ j
  pub empty : (id : String) (c : ℕ) → lookup id p.pending ≡ some c → given_at c p ≡ []
  pub once : (c : ℕ) → length (given_at c p) ≤ 1

pub no_pending-IsSafe : IsSafe no_pending
unfolding no_pending lookup
no_pending-IsSafe = record {
  below = λ id c h. cc;
  apart = λ i j c h k. cc;
  empty = λ id c h. cc;
  once = λ c. omega arith;
}

enter-IsSafe : (id : String) (p : Pending) → IsSafe p → IsSafe (enter id p).0
unfolding enter
enter-IsSafe id p s = record {
  below = λ i c h. ground (arith, lookup-insert id i p.next p.pending, eq_iff id i, s.below i c);
  apart = λ i j c h k. ground (
    arith,
    lookup-insert id i p.next p.pending,
    lookup-insert id j p.next p.pending,
    eq_iff id i,
    eq_iff id j,
    s.apart i j c,
    s.below i c,
    s.below j c,
  );
  empty = λ i c h. ground (
    arith,
    lookup-insert id i p.next p.pending,
    lookup-insert p.next c [] p.given,
    eq_iff id i,
    nat_beq_iff p.next c,
    s.empty i c,
  );
  once = λ c. ground (arith, lookup-insert p.next c [] p.given, s.once c);
}

withdraw-IsSafe : (id : String) (p : Pending) → IsSafe p → IsSafe (withdraw id p)
unfolding withdraw
withdraw-IsSafe id p s = record {
  below = λ i c h. ground (arith, lookup-delete id i p.pending, s.below i c);
  apart = λ i j c h k.
      ground (arith, lookup-delete id i p.pending, lookup-delete id j p.pending, s.apart i j c);
  empty = λ i c h. ground (arith, lookup-delete id i p.pending, s.empty i c);
  once = s.once;
}

give-IsSafe :
    (r : CommandResult) (id : String) (p : Pending) (o : Option ℕ)
    → lookup id p.pending ≡ o
    → IsSafe p
    → IsSafe (give r id p o)
unfolding give
give-IsSafe r id p none e s = s
give-IsSafe r id p (some a) e s = record {
  below = λ i c h. ground (arith, lookup-delete id i p.pending, s.below i c);
  apart = λ i j c h k.
      ground (arith, lookup-delete id i p.pending, lookup-delete id j p.pending, s.apart i j c);
  empty = λ i c h. ground (
    arith,
    lookup-delete id i p.pending,
    eq_iff id i,
    s.apart id i a,
    nat_beq_iff a c,
    lookup-insert a c (given_at a p ++ r ∷ []) p.given,
    s.empty i c,
  );
  once = λ c. ground (
    arith,
    lookup-insert a c (given_at a p ++ r ∷ []) p.given,
    nat_beq_iff a c,
    s.empty id a e,
    s.once c,
  );
}

step-IsSafe : (t : Step) (p : Pending) → IsSafe p → IsSafe (step t p)
unfolding step handle_result time_out
step-IsSafe (enters id) p s = enter-IsSafe id p s
step-IsSafe (withdraws id) p s = withdraw-IsSafe id p s
step-IsSafe (results r) p s = give-IsSafe r r.command_id p (lookup r.command_id p.pending) refl s
step-IsSafe (expires id) p s = give-IsSafe (timed_out id) id p (lookup id p.pending) refl s

-- From a safe state, whatever requests, results and timers do, in any order and with any IDs, no
-- command is given a second result, so that a send on its channel, which holds one, never blocks
-- under the lock.
pub run-IsSafe : (ts : List Step) (p : Pending) → IsSafe p → IsSafe (run ts p)
unfolding run
run-IsSafe [] p s = s
run-IsSafe (t ∷ ts) p s = run-IsSafe ts (step t p) (step-IsSafe t p s)

-- The first result or timeout for an ID.
unfoldable pub first_answer : String → List Step → List CommandResult
first_answer id [] = []
first_answer id (results r ∷ ts) =
    let rest = first_answer id ts in if r.command_id == id then r ∷ [] else rest
first_answer id (expires i ∷ ts) =
    let rest = first_answer id ts in if i == id then timed_out id ∷ [] else rest
first_answer id (enters i ∷ ts) = first_answer id ts
first_answer id (withdraws i ∷ ts) = first_answer id ts

-- A step that neither enters nor withdraws a command with the ID.
abbrev pub Leaves : String → Step → Type 0
Leaves id (enters i) = (i == id) ≡ false
Leaves id (withdraws i) = (i == id) ≡ false
Leaves id (results r) = Unit
Leaves id (expires i) = Unit

-- A command that waits for nothing more.
record IsDone (a : ℕ) (p : Pending) : Type 0 where
  old : a < p.next
  gone : (id : String) → lookup id p.pending ≢ some a

give-IsDone :
    (r : CommandResult) (id : String) (p : Pending) (o : Option ℕ) (a : ℕ)
    → lookup id p.pending ≡ o
    → IsDone a p
    → IsDone a (give r id p o) × (given_at a (give r id p o) ≡ given_at a p)
unfolding give
give-IsDone r id p none a e d = (d, refl)
give-IsDone r id p (some c) a e d = (
  record { old = d.old; gone = λ i h. ground (arith, lookup-delete id i p.pending, d.gone i) },
  ground (arith, lookup-insert c a (given_at c p ++ r ∷ []) p.given, nat_beq_iff c a, d.gone id),
)

step-IsDone :
    (t : Step) (p : Pending) (a : ℕ)
    → IsDone a p
    → IsDone a (step t p) × (given_at a (step t p) ≡ given_at a p)
unfolding step handle_result time_out enter withdraw
step-IsDone (enters id) p a d = (
  record {
    old = ground (arith, d.old);
    gone = λ i h. ground (arith, lookup-insert id i p.next p.pending, d.gone i, d.old);
  },
  ground (arith, lookup-insert p.next a [] p.given, nat_beq_iff p.next a, d.old),
)
step-IsDone (withdraws id) p a d = (
  record { old = d.old; gone = λ i h. ground (arith, lookup-delete id i p.pending, d.gone i) },
  refl,
)
step-IsDone (results r) p a d =
    give-IsDone r r.command_id p (lookup r.command_id p.pending) a refl d
step-IsDone (expires id) p a d = give-IsDone (timed_out id) id p (lookup id p.pending) a refl d

run-IsDone :
    (ts : List Step) (p : Pending) (a : ℕ) → IsDone a p → given_at a (run ts p) ≡ given_at a p
unfolding run
run-IsDone [] p a d = refl
run-IsDone (t ∷ ts) p a d =
    let next = step-IsDone t p a d in run-IsDone ts (step t p) a next.0 ∙ next.1

-- A command that waits, and was given nothing yet.
record IsWaiting (id : String) (a : ℕ) (p : Pending) : Type 0 where
  safe : IsSafe p
  there : lookup id p.pending ≡ some a

give-IsWaiting :
    (r : CommandResult) (i id : String) (p : Pending) (o : Option ℕ) (a : ℕ)
    → lookup i p.pending ≡ o
    → (i == id) ≡ false
    → IsWaiting id a p
    → IsWaiting id a (give r i p o)
unfolding give
give-IsWaiting r i id p none a e ne w = w
give-IsWaiting r i id p (some c) a e ne w = record {
  safe = give-IsSafe r i p (some c) e w.safe;
  there = ground (arith, lookup-delete i id p.pending, w.there);
}

give-answers :
    (r : CommandResult) (i id : String) (p : Pending) (o : Option ℕ) (a : ℕ) (ts : List Step)
    → lookup i p.pending ≡ o
    → (i == id) ≡ true
    → IsWaiting id a p
    → given_at a (run ts (give r i p o)) ≡ r ∷ []
unfolding give
give-answers r i id p none a ts e h w = ground (arith, eq_iff i id, w.there)
give-answers r i id p (some c) a ts e h w =
    let same : c ≡ a = ground (arith, eq_iff i id, w.there) in
    let done : IsDone a (give r i p (some c)) = record {
      old = w.safe.below id a w.there;
      gone = λ j k. ground (
        arith,
        lookup-delete i j p.pending,
        eq_iff i j,
        eq_iff i id,
        w.safe.apart i j a,
        w.there,
      );
    } in
    run-IsDone ts (give r i p (some c)) a done
    ∙ ground (
      arith,
      lookup-insert c a (given_at c p ++ r ∷ []) p.given,
      nat_beq_iff c a,
      w.safe.empty id a w.there,
    )

waiting-answers :
    (id : String) (ts : List Step) (p : Pending) (a : ℕ)
    → All (Leaves id) ts
    → IsWaiting id a p
    → given_at a (run ts p) ≡ first_answer id ts
unfolding run step first_answer handle_result time_out enter withdraw
waiting-answers id [] p a ls w = w.safe.empty id a w.there
waiting-answers id (enters i ∷ ts) p a ls w = waiting-answers id ts (enter i p).0 a ls.1 record {
  safe = enter-IsSafe i p w.safe;
  there = ground (arith, lookup-insert i id p.next p.pending, w.there, ls.0);
}
waiting-answers id (withdraws i ∷ ts) p a ls w =
    waiting-answers id ts (withdraw i p) a ls.1 record {
      safe = withdraw-IsSafe i p w.safe;
      there = ground (arith, lookup-delete i id p.pending, w.there, ls.0);
    }
waiting-answers id (results r ∷ ts) p a ls w =
    let o = lookup r.command_id p.pending in
    elim (Bool-cases (r.command_id == id)) [
      | inl e ↦ ground (arith, e, give-answers r r.command_id id p o a ts refl e w)
      | inr e ↦
          let w' = give-IsWaiting r r.command_id id p o a refl e w in
          ground (arith, e, waiting-answers id ts (give r r.command_id p o) a ls.1 w')
    ]
waiting-answers id (expires i ∷ ts) p a ls w =
    let o = lookup i p.pending in
    elim (Bool-cases (i == id)) [
      | inl e ↦ ground (arith, e, eq_iff i id, give-answers (timed_out i) i id p o a ts refl e w)
      | inr e ↦
          let w' = give-IsWaiting (timed_out i) i id p o a refl e w in
          ground (arith, e, waiting-answers id ts (give (timed_out i) i p o) a ls.1 w')
    ]

-- From a safe state: a command that was entered is given nothing until a timer runs for its ID or
-- an agent answers with its ID, and then the first of the two and no more, while no other command
-- is entered or withdrawn under that ID.
pub run-answers :
    (id : String) (ts : List Step) (p : Pending)
    → IsSafe p
    → All (Leaves id) ts
    → given_at (enter id p).1 (run ts (enter id p).0) ≡ first_answer id ts
unfolding enter
run-answers id ts p s ls = waiting-answers id ts (enter id p).0 p.next ls record {
  safe = enter-IsSafe id p s;
  there = ground (arith, lookup-insert id id p.next p.pending, eq_iff id id);
}
