-- ===== src/Notification/Delivery.antt =====
-- Who is sent a notification: each processor once for every time that it names the topic.
use mathlib.Core.List.{append-nil, append_assoc, map-append}
use rex_sm.Base.{
  suc, ◌≡◌, refl, ap, sym, ◌∙◌, inl, inr, some, List, [], ◌∷◌, ◌++◌, map, push, push-init_of,
  last_of, init_of, length, map_get, map_get-overwrite, if◌then◌else◌, eqb, eqb_sound, Bool-cases,
  Option-cases, arith,
}
use rex_sm.Queue.Deque.{StreamableDeque, pop_front}
use rex_sm.Queue.Order.{contents, pop_front-contents}
use rex_sm.Notification.Topics.{
  Processor, or_default, send_to, subscribe, subscribe_all, new_processors, split_last, dispatch,
  pump,
}

module _ {Topic Tx : Type 0} (dec : Discrete Topic) where
  -- the sender once for every time that the topic is in the list
  unfoldable pub times_named : Topic → List Topic → Tx → List Tx
  times_named t [] tx = []
  times_named t (u ∷ us) tx = if eqb dec u t then tx ∷ times_named t us tx else times_named t us tx

  unfoldable pub receivers : Topic → List (Processor Topic Tx) → List Tx
  unfolding times_named
  receivers t [] = []
  receivers t (p ∷ ps) = times_named t p.topics p.tx ++ receivers t ps

  abbrev of_topic : List (Topic × List Tx) → Topic → List Tx
  of_topic m t = or_default (map_get dec m t)

  of_topic-subscribe :
      (m : List (Topic × List Tx)) (u t : Topic) (tx : Tx)
      → of_topic (subscribe dec m u tx) t ≡ of_topic m t ++ times_named t (u ∷ []) tx
  unfolding subscribe times_named
  of_topic-subscribe m u t tx =
      rw (map_get-overwrite dec u t (push (of_topic m u) tx) m) (elim (Bool-cases (eqb dec u t)) [
        | inl e ↦ rw (e, eqb_sound dec u t e)
        | inr e ↦ rw e (sym (append-nil _))
      ])

  of_topic-subscribe_all :
      (m : List (Topic × List Tx)) (us : List Topic) (t : Topic) (tx : Tx)
      → of_topic (subscribe_all dec m us tx) t ≡ of_topic m t ++ times_named t us tx
  unfolding subscribe_all times_named
  of_topic-subscribe_all m [] t tx = sym (append-nil _)
  of_topic-subscribe_all m (u ∷ us) t tx =
      of_topic-subscribe_all (subscribe dec m u tx) us t tx
      ∙ rw (of_topic-subscribe m u t tx, append_assoc) (ap (◌++◌ (of_topic m t)) (ground arith))

  of_topic-new_processors :
      (m : List (Topic × List Tx)) (ps : List (Processor Topic Tx)) (t : Topic)
      → of_topic (new_processors dec m ps) t ≡ of_topic m t ++ receivers t ps
  unfolding new_processors receivers
  of_topic-new_processors m [] t = sym (append-nil _)
  of_topic-new_processors m (p ∷ ps) t =
      of_topic-new_processors (subscribe_all dec m p.topics p.tx) ps t
      ∙ rw (of_topic-subscribe_all m p.topics t p.tx, append_assoc)

module _ {Topic Tx M : Type 0} (dec : Discrete Topic) (get_topic : M → Topic)
    (ps : List (Processor Topic Tx)) where
  -- the calls of `send` for a notification, and for several
  unfoldable pub sends : M → List (Tx × M)
  unfolding receivers
  sends n = map (λ tx. (tx, n)) (receivers dec (get_topic n) ps)

  unfoldable pub sends_all : List M → List (Tx × M)
  unfolding sends
  sends_all [] = []
  sends_all (n ∷ ns) = sends n ++ sends_all ns

  -- Sending to all but the last and then to the last is sending to all.
  send_to-split_last :
      (n : M) (txs : List Tx) → send_to dec get_topic n (split_last txs) ≡ map (λ tx. (tx, n)) txs
  unfolding split_last
  send_to-split_last n [] = refl
  send_to-split_last n (x ∷ xs) =
      sym (map-append (λ tx. (tx, n)) (init_of x xs) (last_of x xs ∷ []))
      ∙ ap (map (λ tx. (tx, n))) (push-init_of x xs)

  -- A notification is sent to each processor, in their order, once for every time that the processor
  -- names its topic, and to no other.
  pub dispatch-sends : (n : M) → dispatch dec get_topic (new_processors dec [] ps) n ≡ sends n
  unfolding dispatch sends map_get
  dispatch-sends n =
      let named = of_topic-new_processors dec [] ps (get_topic n) in
      elim (Option-cases (map_get dec (new_processors dec [] ps) (get_topic n))) [
        | inl e ↦ rw (dispatch, e, ← named, e)
        | inr (txs, e) ↦ rw (dispatch, e, send_to-split_last n txs, ← named, e)
      ]

  pump_lem :
      (q : StreamableDeque M) (ns : List M)
      → contents q ≡ ns
      → ((pump dec get_topic (suc (length ns)) (new_processors dec [] ps) q).1 ≡ sends_all ns)
        × (contents (pump dec get_topic (suc (length ns)) (new_processors dec [] ps) q).0 ≡ [])
  unfolding pump sends_all
  pump_lem q [] e = elim (pop_front-contents q) [
    | inl (empty, popped) ↦ rw (pump, ap (λ r. r.1) popped, ap (λ r. r.0) popped) (refl, empty)
    | inr (x, popped, left) ↦ cc (sym left ∙ e)
  ]
  pump_lem q (n ∷ ns) e = elim (pop_front-contents q) [
    | inl (empty, popped) ↦ cc (sym empty ∙ e)
    | inr (x, popped, left) ↦
        let both : x ∷ contents (pop_front q).0 ≡ n ∷ ns = sym left ∙ e in
        let first : (pop_front q).1 ≡ some n = ground (arith, popped, both) in
        let rest = pump_lem (pop_front q).0 ns (ground (arith, both)) in
        rw (pump, first, dispatch-sends n) (ap (◌++◌ (sends n)) rest.0, rest.1)
  ]

  -- The loop of the manager sends every notification of the queue, in the queue's order, to each
  -- processor once for every time that it names the topic, in the order of the processors, and then
  -- waits on the empty queue.
  pub pump-sends_all :
      (q : StreamableDeque M)
      → let (q', sent) =
          pump dec get_topic (suc (length (contents q))) (new_processors dec [] ps) q in
        (sent ≡ sends_all (contents q)) × (contents q' ≡ [])
  pump-sends_all q = pump_lem q (contents q) refl
