-- ===== src/Timeout/History.antt =====
-- The ledger over a history of messages and ticks, against one deadline for each id.
use mathlib.Core.Path.{fun_ext}
use rex_sm.Base.{
  ℕ, ◌≡◌, refl, ap, sym, ◌∙◌, inl, inr, Option, none, some, List, [], ◌∷◌, ◌++◌, if◌then◌else◌, eqb,
  arith, Option-cases, tree_before,
}
use rex_sm.Queue.Deque.{StreamableDeque}
use rex_sm.Timeout.Request.{Operation, UnaryRequest, cancel, set, retain}
use rex_sm.Timeout.Ledger.{Ledger, new, with_key, set_timeout, cancel_timeout}
use rex_sm.Timeout.Ledger
use rex_sm.Timeout.Manager.{Signal, values, receive, apply_op, tick}
use rex_sm.Timeout.Count.{count}
use rex_sm.Timeout.Index.{
  IsIndexed, set_timeout-IsIndexed, cancel_timeout-IsIndexed, retain-IsIndexed,
}
use rex_sm.Timeout.Fire.{signals, item_signals, tick_front, tick_back}
use rex_sm.Timeout.Items.{stamped, due_items, later_items, values-due_items, stamped-later_items}
use rex_sm.Timeout.Due.{
  remaining, is_due, InOrder, count-released, tick-remaining, tick-IsIndexed, released-InOrder,
}

module _ {ℓ} {Key T : Type ℓ} (dec : Discrete Key) where
  -- the deadlines after a message
  abbrev pub noted : (Key → Option ℕ) → Option (UnaryRequest Key T) → Key → Option ℕ
  noted m none = m
  noted m (some r) = elim r.op [
    | cancel ↦ λ z. if eqb dec r.id z then none else m z
    | set instant ↦ λ z. if eqb dec r.id z then some instant else m z
    | retain item instant ↦ m
  ]

  cancel_timeout_ids :
      (l : Ledger Key T) (i z : Key)
      → (cancel_timeout dec l i).ids z ≡ (if eqb dec i z then none else l.ids z)
  unfolding cancel_timeout with_key
  cancel_timeout_ids l i z = elim (Option-cases (l.ids i)) [
    | inr (u, e) ↦ rw (e, cancel_timeout)
    | inl e ↦ rw (e, cancel_timeout) (ground (arith, λ (d : i ≡ z). ap l.ids (sym d) ∙ e))
  ]

  apply_op-IsIndexed :
      (l : Ledger Key T) (i : Key) (op : Operation T)
      → IsIndexed dec l
      → IsIndexed dec (apply_op dec l i op)
  unfolding apply_op
  apply_op-IsIndexed l i cancel v = cancel_timeout-IsIndexed dec l i v
  apply_op-IsIndexed l i (set instant) v = set_timeout-IsIndexed dec l i v instant
  apply_op-IsIndexed l i (retain item instant) v = retain-IsIndexed dec l i instant item v

  receive-IsIndexed :
      (l : Ledger Key T) (m : Option (UnaryRequest Key T))
      → IsIndexed dec l
      → IsIndexed dec (receive dec l m)
  unfolding receive
  receive-IsIndexed l none v = v
  receive-IsIndexed l (some r) v = apply_op-IsIndexed l r.id r.op v

  receive_ids :
      (l : Ledger Key T) (m : Option (UnaryRequest Key T)) (z : Key)
      → (receive dec l m).ids z ≡ noted l.ids m z
  unfolding receive apply_op set_timeout with_key Ledger.retain
  receive_ids l none z = refl
  receive_ids l (some r) z = go r.op
    where
      go :
          (op : Operation T)
          → (apply_op dec l r.id op).ids z ≡ noted l.ids (some (record r { op = op })) z
      go cancel = cancel_timeout_ids l r.id z
      go (set instant) = refl
      go (retain item instant) = refl

  -- A message to a ledger whose two indices agree keeps them in agreement and leaves the deadlines
  -- of a plain map from ids to instants: `Set` replaces the deadline of its id, `Cancel` removes
  -- it, `Retain` and what is no request change none.
  pub receive-deadlines :
      (l : Ledger Key T) (m : Option (UnaryRequest Key T))
      → IsIndexed dec l
      → IsIndexed dec (receive dec l m) × ((z : Key) → (receive dec l m).ids z ≡ noted l.ids m z)
  receive-deadlines l m v = (receive-IsIndexed l m v, receive_ids l m)

module _ {ℓ} {Key T Input : Type ℓ} (dec : Discrete Key) (timeout_input : Key → ℕ → Option Input)
    (return_item : Key → T → Option Input) where
  -- What a tick does: the ids released are those whose deadline lies before it, each once and in
  -- the order of their deadlines; they have no deadline any more, and the others keep theirs; the
  -- items given back are those whose instant lies before it, and the others stay with their
  -- instants; the signals go behind the earlier priority signals, those of the timeouts first.
  pub record Ticked (now : ℕ) (l l' : Ledger Key T) (q q' : StreamableDeque (Signal Key Input))
      : Type ℓ where
    pub indexed : IsIndexed dec l'
    pub deadlines : (z : Key) → l'.ids z ≡ remaining now (l.ids z)
    pub fired : List Key
    pub once : (z : Key) → count dec z fired ≡ is_due now (l.ids z)
    pub in_order : InOrder dec l.ids 0 fired
    pub returned : List (Key × T)
    pub items_due : returned ≡ due_items now (stamped l.retainer)
    pub items_kept : stamped l'.retainer ≡ later_items now (stamped l.retainer)
    pub pushed :
        q'.front_values
        ≡ q.front_values
          ++ signals (λ i. timeout_input i now) fired
          ++ item_signals return_item returned
    pub back_kept : q'.back_values ≡ q.back_values

  -- A tick on a ledger whose indices agree releases the ids whose deadline lies before it, each
  -- once and in the order of their deadlines; they have no deadline any more, the others keep
  -- theirs, and the indices still agree. The retained items whose instant lies before it are given
  -- back, in their order, and the others stay with their instants. The signals of these ids, and
  -- then of these items, go behind the earlier priority signals.
  pub tick-Ticked :
      (now : ℕ) (l : Ledger Key T) (q : StreamableDeque (Signal Key Input))
      → IsIndexed dec l
      → let (l', q') = tick dec timeout_input return_item now l q in Ticked now l l' q q'
  unfolding tick
  tick-Ticked now l q v = record {
    indexed = tick-IsIndexed dec timeout_input return_item now l q v;
    deadlines = tick-remaining dec timeout_input return_item now l q v;
    fired = values (tree_before now l.timers);
    once = count-released dec timeout_input return_item now l q v;
    in_order = released-InOrder dec timeout_input return_item now l q v;
    returned = values (tree_before now l.retainer);
    items_due = values-due_items now l.retainer;
    items_kept = stamped-later_items now l.retainer;
    pushed = tick_front dec timeout_input return_item now l q;
    back_kept = tick_back dec timeout_input return_item now l q;
  }

  pub data Event : Type ℓ where
    message : Option (UnaryRequest Key T) → Event
    ticks : ℕ → Event

  unfoldable pub step :
      Ledger Key T × StreamableDeque (Signal Key Input)
      → Event
      → Ledger Key T × StreamableDeque (Signal Key Input)
  step (l, q) (message m) = (receive dec l m, q)
  step (l, q) (ticks now) = tick dec timeout_input return_item now l q

  unfoldable pub run :
      Ledger Key T × StreamableDeque (Signal Key Input)
      → List Event
      → Ledger Key T × StreamableDeque (Signal Key Input)
  run s [] = s
  run s (e ∷ es) = run (step s e) es

  -- the deadlines alone
  unfoldable pub note : (Key → Option ℕ) → Event → Key → Option ℕ
  note m (message r) = noted dec m r
  note m (ticks now) = λ z. remaining now (m z)

  unfoldable pub notes : (Key → Option ℕ) → List Event → Key → Option ℕ
  notes m [] = m
  notes m (e ∷ es) = notes (note m e) es

  step_lem :
      (s : Ledger Key T × StreamableDeque (Signal Key Input)) (e : Event)
      → IsIndexed dec s.0
      → IsIndexed dec (step s e).0 × ((step s e).0.ids ≡ note s.0.ids e)
  unfolding step note
  step_lem (l, q) (message m) v = let (v', e) = receive-deadlines dec l m v in (v', fun_ext e)
  step_lem (l, q) (ticks now) v = let t = tick-Ticked now l q v in (t.indexed, fun_ext t.deadlines)

  -- From a ledger whose two indices agree, after any history of messages and ticks they agree
  -- again, and the ledger holds the deadlines that a plain map from ids to instants has after that
  -- history.
  pub run-notes :
      (s : Ledger Key T × StreamableDeque (Signal Key Input)) (es : List Event)
      → IsIndexed dec s.0
      → IsIndexed dec (run s es).0 × ((run s es).0.ids ≡ notes s.0.ids es)
  unfolding run notes
  run-notes s [] v = (v, refl)
  run-notes s (e ∷ es) v =
      let (v', same) = step_lem s e v in
      let (v'', rest) = run-notes (step s e) es v' in (v'', rest ∙ ap (λ m. notes m es) same)
