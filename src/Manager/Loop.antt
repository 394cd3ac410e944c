-- ===== src/Manager/Loop.antt =====
-- The signal loop: it takes every signal in order, and what a state machine tells its parent
-- reaches the machine of the parent's kind.
use rex_sm.Base.{
  ℕ, zero, suc, ◌≡◌, refl, ap, sym, ◌∙◌, inl, inr, false, eqb_self, Option, none, some, List, [],
  ◌∷◌, ◌++◌, length, push, map_get, ok, Option-cases, arith,
}
use rex_sm.Kind.{Rex, Key, id_dec, is_nil}
use rex_sm.Queue.Deque.{StreamableDeque, pop_front, take_value, push_back}
use rex_sm.Queue.Order.{contents, pop_front-contents, front-push_back, back-push_back}
use rex_sm.Storage.Linked.{IsLinked, peek_parent, peek_state}
use rex_sm.Timeout.Manager.{Signal}
use rex_sm.Manager.World.{World}
use rex_sm.Manager.Machine.{update_state_and_signal}
use rex_sm.Manager.Dispatch.{
  StateMachine, Machines, Turn, idle, handled, unknown, process_turn, turn, turns,
}
use rex_sm.Manager.States.{told, update_state_and_signal-Written}

-- A value pushed on an empty queue is the next that comes out, and the last.
pop_pushed {ℓ} :
    {A : Type ℓ} (q : StreamableDeque A) (x : A)
    → contents q ≡ []
    → ((pop_front (push_back q x)).1 ≡ some x) × (contents (pop_front (push_back q x)).0 ≡ [])
unfolding pop_front take_value
pop_pushed {A = A} q x empty =
    go q.front_values q.back_values (front-push_back q x) (back-push_back q x) empty
  where
    go :
        (xs ys : List A)
        → (push_back q x).front_values ≡ xs
        → (push_back q x).back_values ≡ push ys x
        → xs ++ ys ≡ []
        → ((take_value (push_back q x)).1 ≡ some x) × (contents (take_value (push_back q x)).0 ≡ [])
    go [] [] f b e = (ground arith, ground arith)
    go [] (y ∷ ys) f b e = cc
    go (z ∷ xs) ys f b e = cc

module _ (R : Rex) (machines : Machines R) where
  -- the machines return, and send no signals
  abbrev pub IsQuiet : Type 0
  IsQuiet =
      (k : R.Kind) (sm : StateMachine R)
      → map_get R.kind_dec machines k ≡ some sm
      → (i : Key R) (input : R.Input) (w : World R)
      → ((sm.process i input w).1 ≡ ok tt)
        × ((sm.process i input w).0.signal_queue ≡ w.signal_queue)

  -- what becomes of a signal
  outcome : Option (StateMachine R) → Turn
  outcome none = unknown
  outcome (some sm) = handled

  pub outcomes : List (Signal (Key R) R.Input) → List Turn
  outcomes [] = idle ∷ []
  outcomes (s ∷ ss) = outcome (map_get R.kind_dec machines s.id.kind) ∷ outcomes ss

  -- what is left once the queue has given up its next signal
  abbrev pub popped_off : World R → World R
  popped_off w = record w { signal_queue = (pop_front w.signal_queue).0 }

  -- The world once the signal is given to the machine of its id's kind, if there is one.
  pub given : World R → Signal (Key R) R.Input → Option (StateMachine R) → World R
  given w s none = popped_off w
  given w s (some sm) = (sm.process s.id s.input (popped_off w)).0

  -- the same for one signal after the other
  pub given_all : World R → List (Signal (Key R) R.Input) → World R
  given_all w [] = w
  given_all w (s ∷ ss) = given_all (given w s (map_get R.kind_dec machines s.id.kind)) ss

  turn_lem :
      (w : World R) (s : Signal (Key R) R.Input)
      → IsQuiet
      → (pop_front w.signal_queue).1 ≡ some s
      → ((turn R machines w).1 ≡ outcome (map_get R.kind_dec machines s.id.kind))
        × ((turn R machines w).0.signal_queue ≡ (pop_front w.signal_queue).0)
        × ((turn R machines w).0 ≡ given w s (map_get R.kind_dec machines s.id.kind))
  unfolding turn outcome given
  turn_lem w s quiet e = elim (Option-cases (map_get R.kind_dec machines s.id.kind)) [
    | inl missing ↦ rw (turn, e, missing) (refl, refl, refl)
    | inr (sm, found) ↦
        let (returns, keeps) =
          quiet s.id.kind sm found s.id s.input
            (record w { signal_queue = (pop_front w.signal_queue).0 }) in
        rw (turn, e, found, returns) (refl, keeps, refl)
  ]

  pub turn_idle :
      (w : World R)
      → pop_front w.signal_queue ≡ (w.signal_queue, none)
      → turn R machines w ≡ (w, idle)
  unfolding turn
  turn_idle w e = rw (turn, e) (ap (λ r. (record w { signal_queue = r.0 }, idle)) e)

  pub turns_idle :
      (n : ℕ) (w : World R)
      → turn R machines w ≡ (w, idle)
      → turns R (suc n) machines w ≡ (w, idle ∷ [])
  unfolding turns
  turns_idle n w e = rw (turns, ap (λ r. r.1) e) (ap (λ r. (r.0, idle ∷ [])) e)

  turns_next :
      (n : ℕ) (w : World R) (o : Option (StateMachine R))
      → (turn R machines w).1 ≡ outcome o
      → turns R (suc n) machines w ≡ (
        (turns R n machines (turn R machines w).0).0,
        outcome o ∷ (turns R n machines (turn R machines w).0).1,
      )
  unfolding turns outcome
  turns_next n w none e = rw (turns, e)
  turns_next n w (some sm) e = rw (turns, e)

  turns_lem :
      (w : World R) (ss : List (Signal (Key R) R.Input))
      → IsQuiet
      → contents w.signal_queue ≡ ss
      → ((turns R (suc (length ss)) machines w).1 ≡ outcomes ss)
        × (contents (turns R (suc (length ss)) machines w).0.signal_queue ≡ [])
        × ((turns R (suc (length ss)) machines w).0 ≡ given_all w ss)
  unfolding turns outcomes given_all
  turns_lem w [] quiet e = elim (pop_front-contents w.signal_queue) [
    | inl (none_left, popped) ↦ rw (turns_idle zero w (turn_idle w popped)) (refl, none_left, refl)
    | inr (x, popped, left) ↦ cc (sym left ∙ e)
  ]
  turns_lem w (s ∷ ss) quiet e = elim (pop_front-contents w.signal_queue) [
    | inl (none_left, popped) ↦ cc (sym none_left ∙ e)
    | inr (x, popped, left) ↦
        let both : x ∷ contents (pop_front w.signal_queue).0 ≡ s ∷ ss = sym left ∙ e in
        let (at, queue, after) = turn_lem w s quiet (ground (arith, popped, both)) in
        let rest = turns_lem (turn R machines w).0 ss quiet (rw queue (ground (arith, both))) in
        let next = turns_next (suc (length ss)) w (map_get R.kind_dec machines s.id.kind) at in
        (
          ap (λ r. r.1) next ∙ ap (◌∷◌ (outcome (map_get R.kind_dec machines s.id.kind))) rest.0,
          ap (λ r. contents r.0.signal_queue) next ∙ rest.1,
          ap (λ r. r.0) next ∙ rest.2 ∙ ap (λ v. given_all v ss) after,
        )
  ]

  -- Where the machines return and send no signals, one turn for each signal of the queue and one more
  -- give every signal, in its order, with its id and input to the machine of its id's kind, on the
  -- world that the machines before it left; a signal of a kind without a machine is passed over; then
  -- the loop waits on the empty queue.
  pub turns-outcomes :
      (w : World R)
      → IsQuiet
      → let (w', log) = turns R (suc (length (contents w.signal_queue))) machines w in
        (log ≡ outcomes (contents w.signal_queue))
        × (contents w'.signal_queue ≡ [])
        × (w' ≡ given_all w (contents w.signal_queue))
  turns-outcomes w quiet = turns_lem w (contents w.signal_queue) quiet refl

  -- On a linked store, when a child that has a state writes another with `update_state_and_signal`,
  -- its parent's kind has an input for it and a machine in the table, and no signal is waiting, the
  -- next turn calls that machine on the parent with that input, on a store in which the child has
  -- the state and with no signal left.
  pub turn-parent :
      (w : World R) (i p : Key R) (a : ℕ) (v : R.State) (input : R.Input) (sm : StateMachine R)
      → is_nil R i ≡ false
      → IsLinked (id_dec R) w.state_store
      → w.state_store.trees i ≡ some a
      → peek_parent (id_dec R) w.state_store i ≡ ok (some p)
      → contents w.signal_queue ≡ []
      → R.state_input p.kind v ≡ some input
      → map_get R.kind_dec machines p.kind ≡ some sm
      → let w' = (update_state_and_signal R i v w).0 in
        (w'' : World R) × (turn R machines w' ≡ process_turn R (sm.process p input w''))
        × (peek_state (id_dec R) w''.state_store i ≡ ok (some v))
        × (contents w''.signal_queue ≡ [])
  unfolding told turn
  turn-parent w i p a v input sm some_i linked at parent empty has_input registered =
      let u = update_state_and_signal-Written R w i a some_i linked at v in
      let w' = (update_state_and_signal R i v w).0 in
      let signal : Signal (Key R) R.Input = record { id = p; input = input } in
      let queued : w'.signal_queue ≡ push_back w.signal_queue signal =
        u.2 ∙ rw (u.0, parent, told, has_input) in
      let (popped, left) = pop_pushed w.signal_queue signal empty in
      let popped' : (pop_front w'.signal_queue).1 ≡ some signal = rw queued popped in
      let left' : contents (pop_front w'.signal_queue).0 ≡ [] = rw queued left in
      let written = u.1.states i ∙ rw (eqb_self (id_dec R) i) in
      (
        record w' { signal_queue = (pop_front w'.signal_queue).0 },
        rw (turn, popped', registered),
        written,
        left',
      )
