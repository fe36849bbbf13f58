-- ===== src/Notify/Manager/Delivery.antt =====
-- What Send delivers, and what it records of that.
use klever_node_hub.Prelude.{
  ℕ, ◌≤◌, ◌≡◌, refl, sym, ap, ◌∙◌, String, Bool, List, [], ◌∷◌, ◌++◌, append_assoc, append-nil,
  Option, length, keep, map, inl, inr, arith, Bool-cases,
}
use klever_node_hub.Notify.Alert.{Alert}
use klever_node_hub.Notify.Manager.{
  HistoryEntry, ChannelEntry, Manager, add_history, matches_filter, outcome_entry, stamped,
  send_over, send,
}
use klever_node_hub.Notify.Manager.History.{
  last_of, last_of-append, last_of-whole, last_of-last_of, length-map, unnumbered,
  add_history-newest,
}

abbrev pub passes : Alert → ChannelEntry → Bool
passes alert entry = matches_filter entry.filter alert.severity alert.alert_type

module _ (deliver : String → ℕ → Alert → Option String) where
  abbrev pub outcome : ℕ → Alert → ChannelEntry → HistoryEntry
  outcome now alert entry = outcome_entry now alert entry.channel (deliver entry.channel now alert)

  -- What a loop over the channels records, in front of what a longer one does.
  add-outcomes :
      (now : ℕ) (alert : Alert) (entry : ChannelEntry) (m : Manager) (rest : List HistoryEntry)
      → last_of m.max_hist
          (map unnumbered (add_history (outcome now alert entry) m).history ++ rest)
        ≡ last_of m.max_hist (map unnumbered m.history ++ outcome now alert entry ∷ rest)
  unfolding outcome_entry
  add-outcomes now alert entry m rest =
      let e = outcome now alert entry in
      ap (λ l. last_of m.max_hist (l ++ rest)) (add_history-newest e m)
      ∙ last_of-append m.max_hist (map unnumbered m.history ++ e ∷ []) rest
      ∙ ap (last_of m.max_hist) (append_assoc (map unnumbered m.history) (e ∷ []) rest)

  add-IsKept :
      (e : HistoryEntry) (m : Manager)
      → last_of m.max_hist (map unnumbered (add_history e m).history)
        ≡ map unnumbered (add_history e m).history
  add-IsKept e m =
      let z = map unnumbered m.history ++ unnumbered e ∷ [] in
      ap (last_of m.max_hist) (add_history-newest e m)
      ∙ last_of-last_of m.max_hist m.max_hist z (omega arith)
      ∙ sym (add_history-newest e m)

  -- What the loop is to give: the names, and the history without IDs.
  Delivers : ℕ → Alert → List ChannelEntry → Manager → Manager × List String → Type 0
  Delivers now alert es m r =
      let targets = keep (passes alert) es in
      (r.1 ≡ map (λ entry. entry.channel) targets)
      × (map unnumbered r.0.history
          ≡ last_of m.max_hist (map unnumbered m.history ++ map (outcome now alert) targets))

  send_over-Delivers :
      (now : ℕ) (alert : Alert) (es : List ChannelEntry) (m : Manager)
      → last_of m.max_hist (map unnumbered m.history) ≡ map unnumbered m.history
      → Delivers now alert es m (send_over deliver now alert es m)
  unfolding Delivers send_over keep add_history
  send_over-Delivers now alert [] m h =
      (refl, sym h ∙ ap (last_of m.max_hist) (sym (append-nil (map unnumbered m.history))))
  send_over-Delivers now alert (entry ∷ es) m h =
      let e = outcome now alert entry in
      let p = matches_filter entry.filter alert.severity alert.alert_type in
      let m' = add_history e m in
      let targets = keep (passes alert) es in
      let rest = map (outcome now alert) targets in
      let skip = send_over-Delivers now alert es m h in
      let next = send_over-Delivers now alert es m' (add-IsKept e m) in
      let shift = add-outcomes now alert entry m rest in
      elim (Bool-cases p) [
        | inl q ↦ (ground (arith, q, next.0), ground (arith, q, next.1, shift))
        | inr q ↦ (ground (arith, q, skip.0), ground (arith, q, skip.1))
      ]

  -- If the history is within its bound, Send gives the alert, with the time of the call if it had
  -- none, to exactly the channels whose filter lets it through, in order and whatever the others
  -- return, and records what each returned: apart from the IDs the history is the newest of the
  -- old entries and the new ones, within the bound.
  pub send-Delivers :
      (now : ℕ) (alert : Alert) (m : Manager)
      → length m.history ≤ m.max_hist
      → let a = stamped now alert in
        let targets = keep (passes a) m.channels in
        let r = send deliver now alert m in
        (r.1 ≡ map (λ entry. entry.channel) targets)
        × (map unnumbered r.0.history
            ≡ last_of m.max_hist (map unnumbered m.history ++ map (outcome now a) targets))
  unfolding send Delivers
  send-Delivers now alert m h = send_over-Delivers now (stamped now alert) m.channels m (
      last_of-whole m.max_hist (map unnumbered m.history)
        (omega (arith, h, length-map unnumbered m.history)))
