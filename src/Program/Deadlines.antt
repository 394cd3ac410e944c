-- ===== src/Program/Deadlines.antt =====
-- From a machine's `set_timeout` to the signal of the tick, and from its `cancel_timeout` to the
-- silence of all ticks: through the notification queue, the loop of the notification manager, the
-- channel, the ledger and the tick.
use mathlib.Core.List.{append_assoc}
use rex_sm.Base.{
  ℕ, suc, ◌+◌, ◌<◌, ◌≤◌, ◌≡◌, ap, sym, ◌∙◌, inl, inr, ◌⊎◌, true, false, Option, none, some, List,
  [], ◌∷◌, ◌++◌, length, eqb, eqb_self, eqb_sound, contains, Bool-cases, ltb, arith,
}
use rex_sm.Kind.{Rex, id_dec}
use rex_sm.Queue.Deque.{StreamableDeque}
use rex_sm.Queue.Order.{contents, front-push_front, back-push_front}
use rex_sm.Timeout.Request.{UnaryRequest, cancel, set}
use rex_sm.Timeout.Request
use rex_sm.Timeout.Ledger.{Ledger}
use rex_sm.Timeout.Manager.{Signal, tick}
use rex_sm.Timeout.Count.{count, count_absent, count_present}
use rex_sm.Timeout.Index.{IsIndexed}
use rex_sm.Timeout.Fire.{signals, item_signals, signal_of}
use rex_sm.Timeout.Due.{is_due, remaining}
use rex_sm.Timeout.History.{noted, run, run-notes, notes, tick-Ticked}
use rex_sm.Notification.Topics.{Processor, new_processors, pump}
use rex_sm.Notification.Delivery.{receivers, sends_all, pump-sends_all}
use rex_sm.Manager.World.{World, Key, priority_send}
use rex_sm.Manager.Machine.{set_timeout, cancel_timeout}
use rex_sm.Program.Channel.{timeout_input, return_item, delivered, heard, any_sets, after_last}

regroup {ℓ} : {A : Type ℓ} (a b c d : List A) → (a ++ (b ++ c)) ++ d ≡ (a ++ b) ++ (c ++ d)
regroup a b c d = ap (λ e. e ++ d) (sym (append_assoc a b c)) ∙ append_assoc (a ++ b) c d

module _ {ℓ} {Key Input : Type ℓ} (dec : Discrete Key) where
  -- The signal of an id that is released stands among the signals.
  signals-contains :
      (f : Key → Option Input) (i : Key) (input : Input) (is : List Key)
      → f i ≡ some input
      → contains dec i is ≡ true
      → (xs ys : List (Signal Key Input)) × (signals f is
          ≡ xs ++ (record { id = i; input = input } ∷ ys))
  unfolding contains
  signals-contains f i input [] e h = cc
  signals-contains f i input (j ∷ js) e h = elim (Bool-cases (eqb dec j i)) [
    | inl s ↦ (
      [],
      signals f js,
      ap (λ k. signal_of k (f k) ++ signals f js) (eqb_sound dec j i s)
          ∙ ap (λ o. signal_of i o ++ signals f js) e,
    )
    | inr s ↦
        let (xs, ys, rest) = signals-contains f i input js e (ground (arith, h, s)) in
        (
          signal_of j (f j) ++ xs,
          ys,
          ap (◌++◌ (signal_of j (f j))) rest ∙ sym (append_assoc (signal_of j (f j)) xs _),
        )
  ]

module _ (R : Rex) {Tx : Type 0} (tx_dec : Discrete Tx) (tx : Tx) (topic_dec : Discrete R.Topic)
    (ps : List (Processor R.Topic Tx)) where
  -- The loop of the notification manager until it waits, and then the timeout manager's task on all
  -- that it is sent.
  unfoldable pub settle : World R → Ledger (Key R) R.Item → Ledger (Key R) R.Item
  settle w l =
      let (q, sent) =
        pump topic_dec R.get_topic (suc (length (contents w.notification_queue)))
          (new_processors topic_dec [] ps) w.notification_queue in
      (run (id_dec R) (timeout_input R) (return_item R) (l, w.signal_queue)
        (heard R tx_dec tx (delivered R tx_dec tx sent))).0

  abbrev pub tick_at :
      ℕ
      → Ledger (Key R) R.Item
      → StreamableDeque (Signal (Key R) R.Input)
      → Ledger (Key R) R.Item × StreamableDeque (Signal (Key R) R.Input)
  tick_at = tick (id_dec R) (timeout_input R) (return_item R)

  -- What a tick pushes where the id is not released: signals of other ids and of items.
  pub record IsSilent (i : Key R) (t : ℕ) (q q' : StreamableDeque (Signal (Key R) R.Input))
      : Type 0 where
    pub fired : List (Key R)
    pub returned : List (Key R × R.Item)
    pub pushed :
        q'.front_values
        ≡ q.front_values
          ++ signals (λ j. timeout_input R j t) fired
          ++ item_signals (return_item R) returned
    pub back_kept : q'.back_values ≡ q.back_values
    pub absent : contains (id_dec R) i fired ≡ false

  module _ (i : Key R) (t : ℕ) (l : Ledger (Key R) R.Item)
      (q : StreamableDeque (Signal (Key R) R.Input)) (v : IsIndexed (id_dec R) l) where
    not_due :
        (fired : List (Key R)) (o : Option ℕ)
        → count (id_dec R) i fired ≡ is_due t o
        → is_due t o ≡ 0
        → contains (id_dec R) i fired ≡ false
    not_due fired o once e = elim (Bool-cases (contains (id_dec R) i fired)) [
      | inr c ↦ c
      | inl c ↦
          let some_there = count_present (id_dec R) i fired c in
          absurd (omega (arith, once, e, some_there))
    ]

    tick-IsSilent : is_due t (l.ids i) ≡ 0 → IsSilent i t q (tick_at t l q).1
    tick-IsSilent e =
        let ticked = tick-Ticked (id_dec R) (timeout_input R) (return_item R) t l q v in
        record {
          fired = ticked.fired;
          returned = ticked.returned;
          pushed = ticked.pushed;
          back_kept = ticked.back_kept;
          absent = not_due ticked.fired (l.ids i) (ticked.once i) e;
        }

    tick-signals :
        (input : R.Input)
        → R.timeout_input i.kind t ≡ some input
        → is_due t (l.ids i) ≡ 1
        → (xs ys : List (Signal (Key R) R.Input)) × ((tick_at t l q).1.front_values
            ≡ xs ++ (record { id = i; input = input } ∷ ys))
    tick-signals input supported e =
        let ticked = tick-Ticked (id_dec R) (timeout_input R) (return_item R) t l q v in
        let there : contains (id_dec R) i ticked.fired ≡ true =
          elim (Bool-cases (contains (id_dec R) i ticked.fired)) [
            | inl c ↦ c
            | inr c ↦
                let none_there = count_absent (id_dec R) i ticked.fired c in
                absurd (omega (arith, ticked.once i, e, none_there))
          ] in
        let (xs, ys, found) =
          signals-contains (id_dec R) (λ j. timeout_input R j t) i input ticked.fired supported
            there in
        let items = item_signals (return_item R) ticked.returned in
        (
          q.front_values ++ xs,
          ys ++ items,
          ticked.pushed
              ∙ rw found (regroup q.front_values xs (record { id = i; input = input } ∷ ys) items),
        )

    tick_deadline : (tick_at t l q).0.ids i ≡ remaining t (l.ids i)
    tick_deadline = (tick-Ticked (id_dec R) (timeout_input R) (return_item R) t l q v).deadlines i

  module _ (w : World R) (l : Ledger (Key R) R.Item) (i : Key R) (v : IsIndexed (id_dec R) l)
      (later : any_sets R i w.notification_queue.back_values ≡ false) where
    settled :
        (r : UnaryRequest (Key R) R.Item) (o : Option ℕ)
        → R.try_request (R.from_request r) ≡ some r
        → contains tx_dec tx (receivers topic_dec (R.get_topic (R.from_request r)) ps) ≡ true
        → ((d : Key R → Option ℕ) → noted (id_dec R) d (some r) i ≡ o)
        → let l' = settle (priority_send R (R.from_request r) w).0 l in
          IsIndexed (id_dec R) l' × (l'.ids i ≡ o)
    unfolding settle priority_send
    settled r o understood listens always =
        let m = R.from_request r in
        let w' = (priority_send R m w).0 in
        let q = w.notification_queue in
        let all : contents w'.notification_queue ≡ q.front_values ++ (m ∷ q.back_values) =
          rw (front-push_front q m, back-push_front q m)
            (append_assoc q.front_values (m ∷ []) q.back_values) in
        let sent = sends_all topic_dec R.get_topic ps (contents w'.notification_queue) in
        let (v', same) =
          run-notes (id_dec R) (timeout_input R) (return_item R) (l, w'.signal_queue)
            (heard R tx_dec tx (delivered R tx_dec tx sent)) v in
        rw (settle, (pump-sends_all topic_dec R.get_topic ps w'.notification_queue).0)
          (
            v',
            ap (λ g. g i) same
                ∙ ap
                    (λ ms.
                      notes (id_dec R) (timeout_input R) (return_item R) l.ids
                        (heard R tx_dec tx
                          (delivered R tx_dec tx (sends_all topic_dec R.get_topic ps ms)))
                        i)
                    all
                ∙ after_last R tx_dec tx topic_dec ps l.ids i m o q.front_values q.back_values
                    (λ d. rw understood (always d)) listens later,
          )

    -- A machine that sets a timeout, on a queue in which no request that waits behind it sets or
    -- cancels the same id's, with the timeout manager subscribed to the request's topic: once the
    -- notifications are delivered, a tick at the deadline or before it leaves the deadline and does
    -- not signal it; a tick after it releases the id and puts the signal of its kind's timeout input
    -- among the priority signals.
    pub set_timeout-signals :
        (now duration t : ℕ) (input : R.Input)
        → let r = Request.set_timeout now i duration in
          R.try_request (R.from_request r) ≡ some r
          → contains tx_dec tx (receivers topic_dec (R.get_topic (R.from_request r)) ps) ≡ true
          → R.timeout_input i.kind t ≡ some input
          → let w' = (set_timeout R now i duration w).0 in
            let (l', q') = tick_at t (settle w' l) w'.signal_queue in
            ((t ≤ now + duration)
              × (l'.ids i ≡ some (now + duration))
              × IsSilent i t w.signal_queue q')
            ⊎ ((now + duration < t)
                × (l'.ids i ≡ none)
                × (xs ys : List (Signal (Key R) R.Input)) × (q'.front_values
                    ≡ xs ++ (record { id = i; input = input } ∷ ys)))
    unfolding set_timeout Request.set_timeout Request.from_duration priority_send
    set_timeout-signals now duration t input understood listens supported =
        let r = Request.set_timeout now i duration in
        let w' = (priority_send R (R.from_request r) w).0 in
        let (v', deadline) =
          settled r (some (now + duration)) understood listens (λ d. rw (eqb_self (id_dec R) i)) in
        let kept = tick_deadline i t (settle w' l) w'.signal_queue v' in
        elim (Bool-cases (ltb (now + duration) t)) [
          | inl late ↦
              let (xs, ys, found) =
                tick-signals i t (settle w' l) w'.signal_queue v' input supported
                  (rw (deadline, late)) in
              inr (ground (arith, late), kept ∙ rw (deadline, late), xs, ys, found)
          | inr early ↦ inl (
            ground (arith, early),
            kept ∙ rw (deadline, early),
            tick-IsSilent i t (settle w' l) w'.signal_queue v' (rw (deadline, early)),
          )
        ]

    -- A machine that cancels its timeout, under the same conditions: once the notifications are
    -- delivered, whatever deadline the id had, it has none, and no tick signals a timeout of it.
    pub cancel_timeout-IsSilent :
        (t : ℕ)
        → let r = Request.cancel_timeout i in
          R.try_request (R.from_request r) ≡ some r
          → contains tx_dec tx (receivers topic_dec (R.get_topic (R.from_request r)) ps) ≡ true
          → let w' = (cancel_timeout R i w).0 in
            let (l', q') = tick_at t (settle w' l) w'.signal_queue in
            ((settle w' l).ids i ≡ none) × (l'.ids i ≡ none) × IsSilent i t w.signal_queue q'
    unfolding cancel_timeout Request.cancel_timeout priority_send
    cancel_timeout-IsSilent t understood listens =
        let r = Request.cancel_timeout i in
        let w' = (priority_send R (R.from_request r) w).0 in
        let (v', deadline) = settled r none understood listens (λ d. rw (eqb_self (id_dec R) i)) in
        (
          deadline,
          tick_deadline i t (settle w' l) w'.signal_queue v' ∙ rw deadline,
          tick-IsSilent i t (settle w' l) w'.signal_queue v' (rw deadline),
        )
