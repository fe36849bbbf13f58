-- ===== src/Alerting/Regression/Reports.antt =====
-- Notifications of version changes, and the rows that they are of.
use klever_node_hub.Prelude.{
  ◌⊎◌, All-map, All-append, ℕ, ◌≡◌, refl, sym, ap, ◌∙◌, String, false, List, [], ◌∷◌, ◌++◌, Option,
  nat_eq, nat_beq_iff, All, arith, inl, inr, subst,
}
use klever_node_hub.Store.Versions.{VersionChange, mark_rows}
use klever_node_hub.Alerting.Rules.{Numbers}
use klever_node_hub.Alerting.Regression.{Medians, NodeNames}
use klever_node_hub.Notify.Alert.{Alert}
use klever_node_hub.Alerting.Rules.{sprint}
use klever_node_hub.Alerting.Regression.{node_name, regression_message}
use klever_node_hub.Alerting.Regression.Rows.{
  Differs, IsDistinct, OpenIn, is_open, OpenIn-is_open, OpenIn-unmark, mark_rows-closes,
  mark_rows-closed,
}

append_assoc : (xs ys zs : List Alert) → (xs ++ ys) ++ zs ≡ xs ++ (ys ++ zs)
append_assoc [] ys zs = refl
append_assoc (x ∷ xs) ys zs = ap (λ rest. x ∷ rest) (append_assoc xs ys zs)

append_nil : (xs : List Alert) → xs ++ [] ≡ xs
append_nil [] = refl
append_nil (x ∷ xs) = ap (λ rest. x ∷ rest) (append_nil xs)

IsDistinct-append :
    (cs ds : List VersionChange)
    → IsDistinct cs
    → IsDistinct ds
    → All (λ c. All (Differs c) ds) cs
    → IsDistinct (cs ++ ds)
IsDistinct-append [] ds d e h = e
IsDistinct-append (c ∷ cs) ds d e h =
    (All-append (Differs c) cs ds d.0 h.0, IsDistinct-append cs ds d.1 e h.1)

module _ {F : Type 0} (n : Numbers F) (d : Medians F) (names : String → Option NodeNames) where
  -- A notification of a change: its source is the change's node, and its message names the node and
  -- the version.
  pub record IsOf (c : VersionChange) (a : Alert) : Type 0 where
    pub from_node : a.source ≡ sprint ("node:" ∷ node_name n d names c.node_id ∷ [])
    pub kind : a.alert_type ≡ "version"
    pub previous : String
    pub before : F
    pub after : F
    pub text : a.message ≡ regression_message n d names c previous before after

  -- One notification for each change.
  abbrev pub AreOf : List VersionChange → List Alert → Type 0
  AreOf [] [] = Unit
  AreOf (c ∷ cs) (a ∷ alerts) = IsOf c a × AreOf cs alerts
  AreOf _ _ = ⊥

  AreOf-append :
      (cs ds : List VersionChange) (alerts more : List Alert)
      → AreOf cs alerts
      → AreOf ds more
      → AreOf (cs ++ ds) (alerts ++ more)
  AreOf-append [] ds [] more h k = k
  AreOf-append [] ds (a ∷ alerts) more h k = absurd h
  AreOf-append (c ∷ cs) ds [] more h k = absurd h
  AreOf-append (c ∷ cs) ds (a ∷ alerts) more h k = (h.0, AreOf-append cs ds alerts more h.1 k)

  -- From some rows and notifications to others: the notifications that came are of changes with
  -- different IDs, each still to be judged before, and judged after.
  pub record Reports (rows : List VersionChange) (sent : List Alert) (rows' : List VersionChange)
      (sent' : List Alert) : Type 0 where
    pub changes : List VersionChange
    pub alerts : List Alert
    pub came : sent' ≡ sent ++ alerts
    pub of_changes : AreOf changes alerts
    pub distinct : IsDistinct changes
    pub open_before : All (λ c. OpenIn c rows) changes
    pub closed_after : All (λ c. is_open c.id rows' ≡ false) changes
    pub no_new : (c : VersionChange) → OpenIn c rows' → OpenIn c rows
    pub stay_closed : (id : ℕ) → is_open id rows ≡ false → is_open id rows' ≡ false

  pub Reports-refl : (rows : List VersionChange) (sent : List Alert) → Reports rows sent rows sent
  Reports-refl rows sent = record {
    changes = [];
    alerts = [];
    came = sym (append_nil sent);
    of_changes = tt;
    distinct = tt;
    open_before = tt;
    closed_after = tt;
    no_new = λ c o. o;
    stay_closed = λ id h. h;
  }

  -- A change that is judged differs from those that are still to be judged.
  closed-differ :
      (cs ds rows : List VersionChange)
      → All (λ c. is_open c.id rows ≡ false) cs
      → All (λ e. OpenIn e rows) ds
      → All (λ c. All (Differs c) ds) cs
  closed-differ cs ds rows closed opened =
      All-map _ _
        (λ c shut.
          All-map _ _
            (λ e o. ground (
              arith,
              shut,
              OpenIn-is_open e rows o,
              nat_beq_iff c.id e.id,
              ap (λ id. is_open id rows) {x = c.id} {y = e.id},
            ))
            ds opened)
        cs closed

  pub Reports-trans :
      (rows1 rows2 rows3 : List VersionChange) (sent1 sent2 sent3 : List Alert)
      → Reports rows1 sent1 rows2 sent2
      → Reports rows2 sent2 rows3 sent3
      → Reports rows1 sent1 rows3 sent3
  Reports-trans rows1 rows2 rows3 sent1 sent2 sent3 p q = record {
    changes = p.changes ++ q.changes;
    alerts = p.alerts ++ q.alerts;
    came = q.came ∙ ap (λ xs. xs ++ q.alerts) p.came ∙ append_assoc sent1 p.alerts q.alerts;
    of_changes = AreOf-append p.changes q.changes p.alerts q.alerts p.of_changes q.of_changes;
    distinct =
        IsDistinct-append p.changes q.changes p.distinct q.distinct
          (closed-differ p.changes q.changes rows2 p.closed_after q.open_before);
    open_before =
        All-append (λ c. OpenIn c rows1) p.changes q.changes p.open_before
          (All-map _ _ (λ c o. p.no_new c o) q.changes q.open_before);
    closed_after =
        All-append (λ c. is_open c.id rows3 ≡ false) p.changes q.changes
          (All-map _ _ (λ c h. q.stay_closed c.id h) p.changes p.closed_after) q.closed_after;
    no_new = λ c o. p.no_new c (q.no_new c o);
    stay_closed = λ id h. q.stay_closed id (p.stay_closed id h);
  }

  -- Nothing is sent, or one notification of the change.
  abbrev pub Told : VersionChange → List Alert → List Alert → Type 0
  Told c sent sent' = (sent' ≡ sent) ⊎ ((a : Alert) × (sent' ≡ sent ++ a ∷ []) × IsOf c a)

  pub Told-Reports :
      (c : VersionChange) (rows rows' : List VersionChange) (sent sent' : List Alert)
      → rows' ≡ mark_rows c.id rows
      → OpenIn c rows
      → Told c sent sent'
      → Reports rows sent rows' sent'
  Told-Reports c rows rows' sent sent' marked o told =
      subst (λ rows'. Reports rows sent rows' sent') (sym marked) (reports told)
    where
      reports : Told c sent sent' → Reports rows sent (mark_rows c.id rows) sent'
      reports (inl same) = record {
        changes = [];
        alerts = [];
        came = same ∙ sym (append_nil sent);
        of_changes = tt;
        distinct = tt;
        open_before = tt;
        closed_after = tt;
        no_new = λ e o. OpenIn-unmark c.id e rows o;
        stay_closed = λ id h. mark_rows-closed c.id id rows h;
      }
      reports (inr (a, came, of_change)) = record {
        changes = c ∷ [];
        alerts = a ∷ [];
        came = came;
        of_changes = (of_change, tt);
        distinct = (tt, tt);
        open_before = (o, tt);
        closed_after = (mark_rows-closes c.id rows, tt);
        no_new = λ e o. OpenIn-unmark c.id e rows o;
        stay_closed = λ id h. mark_rows-closed c.id id rows h;
      }
