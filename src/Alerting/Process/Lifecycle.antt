-- ===== src/Alerting/Process/Lifecycle.antt =====
-- The life of one state key over a history of results.
use klever_node_hub.Prelude.{
  ℕ, ◌+◌, ◌*◌, String, ◌≡◌, refl, ◌∙◌, inl, inr, Bool, true, false, ◌||◌, List, [], ◌∷◌, Option,
  none, some, lookup, lookup-insert, lookup-delete, ◌==◌, string_eq, leb, if◌then◌else◌, arith,
  eq_iff, Bool-cases, ap, subst, sym,
}
use klever_node_hub.Store.Alerts.{AlertRecord, State, pending, firing, resolved}
use klever_node_hub.Alerting.Rules.{Numbers}
use klever_node_hub.Alerting.Process.{
  Io, Sample, AlertState, Evaluator, second, process_result, process_breach, resolve_state,
  seen_state, advance, remind, fire_alert, fire_found, new_state,
}

-- What the results say of a key: no breach, or a breach since a time, reported or not.
pub data Phase : Type 0 where
  quiet : Phase
  breaching : ℕ → Bool → Phase

module _ {F : Type 0} (n : Numbers F) where
  unfoldable pub run : Evaluator F → List (Io × Sample F) → Evaluator F
  run e [] = e
  run e ((io, s) ∷ es) = run (process_result n io s e) es

  -- The breach has lasted for the rule's duration.
  abbrev pub is_due : Sample F → ℕ → ℕ → Bool
  is_due s since now = leb (since + s.rule.duration_sec * second) now

  abbrev pub breach_step : Sample F → ℕ → Phase → Phase
  breach_step s now quiet = breaching now (is_due s now now)
  breach_step s now (breaching since fired) = breaching since (fired || is_due s since now)

  unfoldable pub phase_step : String → Phase → Io × Sample F → Phase
  phase_step key p (io, s) =
      if s.state_key == key then (if s.breached then breach_step s io.now p else quiet) else p

  unfoldable pub phase : String → Phase → List (Io × Sample F) → Phase
  phase key p [] = p
  phase key p (e ∷ es) = phase key (phase_step key p e) es

  -- The entry of the key shows its phase.
  abbrev pub Shows : Phase → Option (AlertState F) → Type 0
  Shows quiet o = o ≡ none
  Shows (breaching since fired) o =
      (st : AlertState F) × (o ≡ some st)
      × (st.first_seen ≡ since)
      × (st.state ≡ (if fired then firing else pending))

  -- The switch keeps the start of the breach, leaves the map alone, and fires when it is due.
  record Advanced (s : Sample F) (now : ℕ) (st : AlertState F) (e : Evaluator F)
      (out : AlertState F × Evaluator F) : Type 0 where
    same_start : out.0.first_seen ≡ st.first_seen
    same_map : out.1.states ≡ e.states
    fires :
        st.state ≡ pending → out.0.state ≡ (if is_due s st.first_seen now then firing else pending)
    stays : st.state ≡ firing → out.0.state ≡ firing

  fire_found-same :
      (io : Io) (s : Sample F) (st : AlertState F) (e : Evaluator F) (o : Option AlertRecord)
      → let out = fire_found n io s st e o in
        (out.0.first_seen ≡ st.first_seen) × (out.1.states ≡ e.states) × (out.0.state ≡ st.state)
  unfolding fire_found
  fire_found-same io s st e none = (refl, refl, refl)
  fire_found-same io s st e (some r) = (refl, refl, refl)

  fire_alert-same :
      (io : Io) (s : Sample F) (st : AlertState F) (e : Evaluator F)
      → let out = fire_alert n io s st e in
        (out.0.first_seen ≡ st.first_seen) × (out.1.states ≡ e.states) × (out.0.state ≡ st.state)
  unfolding fire_alert
  fire_alert-same io s st e = fire_found-same io s st e _

  remind-same :
      (io : Io) (s : Sample F) (st : AlertState F) (e : Evaluator F) (o : Option ℕ)
      → let out = remind n io s st e o in
        (out.0.first_seen ≡ st.first_seen) × (out.1.states ≡ e.states) × (out.0.state ≡ st.state)
  unfolding remind
  remind-same io s st e none = (refl, refl, refl)
  remind-same io s st e (some t) =
      elim (Bool-cases (leb (t + s.rule.cooldown_min * 60 * second) io.now)) [
        | inl due ↦ rw due (refl, refl, refl)
        | inr early ↦ rw early (refl, refl, refl)
      ]

  advance-Advanced :
      (io : Io) (s : Sample F) (st : AlertState F) (e : Evaluator F) (st_state : State)
      → st.state ≡ st_state
      → Advanced s io.now st e (advance n io s st e st_state)
  unfolding advance
  advance-Advanced io s st e pending h = elim (Bool-cases (is_due s st.first_seen io.now)) [
    | inl due ↦
        let same = fire_alert-same io s (record st { state = firing }) e in
        rw due (record {
          same_start = same.0;
          same_map = same.1;
          fires = λ p. rw due same.2;
          stays = λ p. same.2;
        })
    | inr early ↦
        rw early
          (record { same_start = refl; same_map = refl; fires = λ p. rw early p; stays = λ p. p })
  ]
  advance-Advanced io s st e firing h =
      let same = remind-same io s st e st.notified_at in
      record { same_start = same.0; same_map = same.1; fires = λ p. cc; stays = λ p. same.2 ∙ p }
  advance-Advanced io s st e resolved h = record {
    same_start = refl;
    same_map = refl;
    fires = λ p. cc;
    stays = λ p. cc;
  }

  resolve_state-same :
      (io : Io) (source : String) (o : Option (AlertState F)) (e : Evaluator F)
      → (resolve_state n io source o e).states ≡ e.states
  unfolding resolve_state
  resolve_state-same io source none e = refl
  resolve_state-same io source (some st) e = ground arith

  -- What process_result does to the entries.
  lookup-process_breach :
      (io : Io) (s : Sample F) (o : Option (AlertState F)) (e : Evaluator F) (key : String)
      → lookup key (process_breach n io s o e).states ≡ (
          if s.state_key == key
          then some (advance n io s (seen_state n io s o) e (seen_state n io s o).state).0
          else lookup key e.states)
  unfolding process_breach
  lookup-process_breach io s o e key =
      let st = seen_state n io s o in
      let a = advance-Advanced io s st e st.state refl in
      lookup-insert s.state_key key _ _
      ∙ ap (λ m. if s.state_key == key then some (advance n io s st e st.state).0 else lookup key m)
          a.same_map

  Shows-advance :
      (io : Io) (s : Sample F) (st : AlertState F) (e : Evaluator F) (since : ℕ) (fired : Bool)
      → st.first_seen ≡ since
      → st.state ≡ (if fired then firing else pending)
      → Shows
          (breaching since (fired || is_due s since io.now))
          (some (advance n io s st e st.state).0)
  Shows-advance io s st e since true f h =
      let a = advance-Advanced io s st e st.state refl in
      ((advance n io s st e st.state).0, refl, a.same_start ∙ f, a.stays h)
  Shows-advance io s st e since false f h =
      let a = advance-Advanced io s st e st.state refl in
      (
        (advance n io s st e st.state).0,
        refl,
        a.same_start ∙ f,
        a.fires h ∙ ap (λ t. if is_due s t io.now then firing else pending) f,
      )

  Shows-breach :
      (io : Io) (s : Sample F) (p : Phase) (o : Option (AlertState F)) (e : Evaluator F)
      → Shows p o
      → Shows
          (breach_step s io.now p)
          (some (advance n io s (seen_state n io s o) e (seen_state n io s o).state).0)
  unfolding seen_state
  Shows-breach io s quiet o e h =
      rw h (Shows-advance io s (new_state n io s) e io.now false new_first new_pending)
    where
      new_first : (new_state n io s).first_seen ≡ io.now
      new_first = unfold new_state in refl

      new_pending : (new_state n io s).state ≡ pending
      new_pending = unfold new_state in refl
  Shows-breach io s (breaching since fired) o e (st, found, f, h) = rw found (
      Shows-advance io s (record st { last_seen = io.now; last_value = s.value }) e since fired f h)

  lookup-process_result :
      (io : Io) (s : Sample F) (e : Evaluator F) (key : String)
      → let seen = seen_state n io s (lookup s.state_key e.states) in
        lookup key (process_result n io s e).states ≡ (
          if s.breached
          then (if s.state_key == key
              then some (advance n io s seen e seen.state).0
              else lookup key e.states)
          else (if s.state_key == key then none else lookup key e.states))
  unfolding process_result
  lookup-process_result io s e key =
      let found = lookup s.state_key e.states in
      let e' = resolve_state n io s.source found e in
      ground (
        arith,
        lookup-process_breach io s found e key,
        lookup-delete s.state_key key e'.states,
        resolve_state-same io s.source found e,
      )

  choose :
      (breached mine : Bool) (p q : Phase) (o : Option (AlertState F)) (st : AlertState F)
      → (mine ≡ false → Shows p o)
      → (mine ≡ true → Shows q (some st))
      → Shows
          (if mine then (if breached then q else quiet) else p)
          (if breached then (if mine then some st else o) else (if mine then none else o))
  choose true true p q o st hp hq = hq refl
  choose true false p q o st hp hq = hp refl
  choose false true p q o st hp hq = refl
  choose false false p q o st hp hq = hp refl

  Shows-process :
      (io : Io) (s : Sample F) (e : Evaluator F) (key : String) (p : Phase)
      → Shows p (lookup key e.states)
      → Shows (phase_step key p (io, s)) (lookup key (process_result n io s e).states)
  unfolding phase_step
  Shows-process io s e key p h =
      subst (Shows (phase_step key p (io, s))) (sym (lookup-process_result io s e key)) (
        choose s.breached (s.state_key == key) p (breach_step s io.now p) (lookup key e.states) _
          (λ _. h)
          (λ mine.
            Shows-breach io s p (lookup s.state_key e.states) e
              (subst (λ k. Shows p (lookup k e.states)) (sym ((eq_iff s.state_key key).0 mine)) h)))

  Shows-run :
      (e : Evaluator F) (es : List (Io × Sample F)) (key : String) (p : Phase)
      → Shows p (lookup key e.states)
      → Shows (phase key p es) (lookup key (run e es).states)
  unfolding run phase
  Shows-run e [] key p h = h
  Shows-run e ((io, s) ∷ es) key p h =
      Shows-run (process_result n io s e) es key (phase_step key p (io, s))
        (Shows-process io s e key p h)

  -- From a state without an entry of the key, after any results, for any rules, nodes and servers,
  -- the entry of the key says how its own results stand: there is none unless the last one was a
  -- breach; else it holds when the breach that is not yet over began, and it is firing exactly if
  -- at some result since then the breach had lasted for the duration of the result's rule.
  pub run-Shows :
      (e : Evaluator F) (es : List (Io × Sample F)) (key : String)
      → lookup key e.states ≡ none
      → Shows (phase key quiet es) (lookup key (run e es).states)
  run-Shows e es key h = Shows-run e es key quiet h
