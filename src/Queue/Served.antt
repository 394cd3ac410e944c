-- ===== src/Queue/Served.antt =====
-- With several readers no wakeup is lost: how many tasks are awake, and who is registered.
use rex_sm.Base.{
  ℕ, zero, suc, ◌+◌, ◌≤◌, ◌≡◌, refl, ap, sym, ◌∙◌, inl, inr, Bool, true, false, Option, none, some,
  List, [], ◌∷◌, push, length, length-append, set, get_elem?, get_elem?-set, natb, if◌then◌else◌,
  arith, Bool-cases,
}
use rex_sm.Queue.Deque.{
  StreamableDeque, StreamReceiver, ReceiverNotifier, ready, pending, push_front, push_back,
  take_value, poll_next, pop_front,
}
use rex_sm.Queue.Order.{
  Priority, front, back, push_as, contents, front-push_front, back-push_front, front-push_back,
  back-push_back, pop_front-contents,
}
use rex_sm.Queue.Readers.{
  Readers, Event, pushes, polls, awake, times, sleeping, wake_up, pushed, polled, step, run,
  IsServed,
}

awake-set-false :
    (l : List Bool) (h : ℕ) → get_elem? l h ≡ some true → awake (set l h false) ≡ suc (awake l)
unfolding awake
awake-set-false [] h e = cc
awake-set-false (true ∷ l) zero e = refl
awake-set-false (false ∷ l) zero e = absurd (ground (arith, e))
awake-set-false (true ∷ l) (suc h) e = awake-set-false l h e
awake-set-false (false ∷ l) (suc h) e = ap suc (awake-set-false l h e)

awake-set-true :
    (l : List Bool) (h : ℕ) → get_elem? l h ≡ some false → suc (awake (set l h true)) ≡ awake l
unfolding awake
awake-set-true [] h e = cc
awake-set-true (true ∷ l) zero e = absurd (ground (arith, e))
awake-set-true (false ∷ l) zero e = refl
awake-set-true (true ∷ l) (suc h) e = awake-set-true l h e
awake-set-true (false ∷ l) (suc h) e = ap suc (awake-set-true l h e)

all_awake : (l : List Bool) → ((k : ℕ) → sleeping (get_elem? l k) ≡ 0) → awake l ≡ length l
unfolding awake sleeping
all_awake [] h = refl
all_awake (true ∷ l) h = absurd (omega (arith, h 0))
all_awake (false ∷ l) h = ap suc (all_awake l (λ k. h (suc k)))

length-set : (l : List Bool) (h : ℕ) (b : Bool) → length (set l h b) ≡ length l
length-set [] h b = refl
length-set (c ∷ l) zero b = refl
length-set (c ∷ l) (suc h) b = ap suc (length-set l h b)

times-push :
    (k : ℕ) (ns : List ReceiverNotifier) (n : ReceiverNotifier)
    → times k (push ns n) ≡ times k ns + (if natb n.handle k then 1 else 0)
unfolding times
times-push k [] n = ground arith
times-push k (m ∷ ns) n = ground (arith, times-push k ns n)

awake_le : (l : List Bool) → awake l ≤ length l
unfolding awake
awake_le [] = omega arith
awake_le (true ∷ l) = omega (arith, awake_le l)
awake_le (false ∷ l) = omega (arith, awake_le l)

is_sleeping : (o : Option Bool) → 1 ≤ sleeping o → o ≡ some true
unfolding sleeping
is_sleeping none h = absurd (omega arith)
is_sleeping (some false) h = absurd (omega arith)
is_sleeping (some true) h = refl

times_self :
    (n : ReceiverNotifier) (ns : List ReceiverNotifier)
    → times n.handle (n ∷ ns) ≡ suc (times n.handle ns)
unfolding times
times_self n ns = ground arith

times_other :
    (k : ℕ) (n : ReceiverNotifier) (ns : List ReceiverNotifier)
    → natb n.handle k ≡ false
    → times k ns ≡ times k (n ∷ ns)
unfolding times
times_other k n ns e = ground (arith, e)

module _ {ℓ} {A : Type ℓ} where
  length-push_as :
      (q : StreamableDeque A) (p : Priority) (x : A)
      → length (contents (push_as q (p, x))) ≡ suc (length (contents q))
  unfolding push_as
  length-push_as q front x = ground (
    arith,
    front-push_front q x,
    back-push_front q x,
    length-append (push q.front_values x) q.back_values,
    length-append q.front_values (x ∷ []),
    length-append q.front_values q.back_values,
  )
  length-push_as q back x = ground (
    arith,
    front-push_back q x,
    back-push_back q x,
    length-append q.front_values (push q.back_values x),
    length-append q.back_values (x ∷ []),
    length-append q.front_values q.back_values,
  )

  push_as-idle :
      (q : StreamableDeque A) (p : Priority) (x : A)
      → q.rx_notifiers ≡ []
      → ((push_as q (p, x)).rx_notifiers ≡ []) × ((push_as q (p, x)).runtime ≡ q.runtime)
  unfolding push_as push_front push_back
  push_as-idle q front x e = (ground arith, ground arith)
  push_as-idle q back x e = (ground arith, ground arith)

  push_as-wakes :
      (q : StreamableDeque A) (p : Priority) (x : A) (n : ReceiverNotifier)
      (ns : List ReceiverNotifier)
      → q.rx_notifiers ≡ n ∷ ns
      → ((push_as q (p, x)).rx_notifiers ≡ ns)
        × ((push_as q (p, x)).runtime.woken ≡ n.handle ∷ q.runtime.woken)
  unfolding push_as push_front push_back
  push_as-wakes q front x n ns e = (ground arith, ground arith)
  push_as-wakes q back x n ns e = (ground arith, ground arith)

  module _ (c : Readers A) (p : Priority) (x : A) (v : IsServed c) where
    push-idle : c.queue.rx_notifiers ≡ [] → IsServed (pushed c (push_as c.queue (p, x)))
    unfolding times
    push-idle e =
        let (rx, rt) = push_as-idle c.queue p x e in
        let none_asleep : (k : ℕ) → sleeping (get_elem? c.asleep k) ≡ 0 =
          λ k. sym (v.registered k) ∙ rw e in
        let same : wake_up c.queue.runtime (push_as c.queue (p, x)).runtime c.asleep ≡ c.asleep =
          rw rt (ground arith) in
        record {
          registered = λ k. rw (rx, same) (sym (none_asleep k));
          enough = inr (rw same (all_awake c.asleep none_asleep));
        }

    push-wakes :
        (n : ReceiverNotifier) (ns : List ReceiverNotifier)
        → c.queue.rx_notifiers ≡ n ∷ ns
        → IsServed (pushed c (push_as c.queue (p, x)))
    unfolding sleeping
    push-wakes n ns e =
        let (rx, rt) = push_as-wakes c.queue p x n ns e in
        let here : suc (times n.handle ns) ≡ sleeping (get_elem? c.asleep n.handle) =
          sym (times_self n ns) ∙ ap (times n.handle) (sym e) ∙ v.registered n.handle in
        let slept : get_elem? c.asleep n.handle ≡ some true =
          is_sleeping (get_elem? c.asleep n.handle) (omega (arith, here)) in
        let up : wake_up c.queue.runtime (push_as c.queue (p, x)).runtime c.asleep
            ≡ set c.asleep n.handle false =
          rw rt (ground arith) in
        let more = awake-set-false c.asleep n.handle slept in
        let one : suc (times n.handle ns) ≡ 1 = here ∙ ap sleeping slept in
        record {
          registered = λ k.
              rw (rx, up, get_elem?-set c.asleep n.handle k true false slept)
                (elim (Bool-cases (natb n.handle k)) [
                  | inl d ↦
                      let hk : n.handle ≡ k = ground arith in rw (d, ← hk) (omega (arith, one))
                  | inr d ↦ rw d (times_other k n ns d ∙ ap (times k) (sym e) ∙ v.registered k)
                ]);
          enough = inl (
              rw (up, length-push_as c.queue p x, more)
                (elim v.enough [
                  | inl le ↦ omega (arith, le)
                  | inr all ↦ absurd (
                      omega (
                        arith,
                        all,
                        more,
                        awake_le (set c.asleep n.handle false),
                        length-set c.asleep n.handle false,
                      ))
                ]));
        }

    push-IsServed : IsServed (pushed c (push_as c.queue (p, x)))
    push-IsServed = by_notifiers c.queue.rx_notifiers refl
      where
        by_notifiers :
            (ns : List ReceiverNotifier)
            → c.queue.rx_notifiers ≡ ns
            → IsServed (pushed c (push_as c.queue (p, x)))
        by_notifiers [] e = push-idle e
        by_notifiers (n ∷ ns) e = push-wakes n ns e

  poll_pending :
      (q : StreamableDeque A) (r : StreamReceiver) (k : ℕ)
      → take_value q ≡ (q, none)
      → poll_next q r k ≡ (
        record q {
          rx_notifiers =
              push q.rx_notifiers (record { handle = k; awake = length q.runtime.flags });
          runtime = record { flags = push q.runtime.flags false; woken = q.runtime.woken };
        },
        record { awake = some (length q.runtime.flags) },
        pending,
      )
  unfolding poll_next
  poll_pending q r k e = rw (poll_next, ap (λ t. t.1) e)

  poll_ready :
      (q : StreamableDeque A) (r : StreamReceiver) (k : ℕ) (x : A)
      → (take_value q).1 ≡ some x
      → poll_next q r k ≡ ((take_value q).0, record { awake = none }, ready x)
  unfolding poll_next
  poll_ready q r k x e = rw (poll_next, e)

  taken_notifiers : (q : StreamableDeque A) → (take_value q).0.rx_notifiers ≡ q.rx_notifiers
  unfolding take_value
  taken_notifiers q = ground arith

  module _ (c : Readers A) (k : ℕ) (v : IsServed c)
      (running : get_elem? c.asleep k ≡ some false) where
    poll-sleeps :
        contents c.queue ≡ []
        → take_value c.queue ≡ (c.queue, none)
        → IsServed (polled c k (poll_next c.queue (c.receivers k) k))
    unfolding sleeping
    poll-sleeps empty e = rw (poll_pending c.queue (c.receivers k) k e) (record {
      registered = λ j.
          rw
            (
              times-push j c.queue.rx_notifiers
                  (record { handle = k; awake = length c.queue.runtime.flags }),
              get_elem?-set c.asleep k j false true running,
            )
            (elim (Bool-cases (natb k j)) [
              | inl d ↦
                  let kj : k ≡ j = ground arith in
                  let none_before : times k c.queue.rx_notifiers ≡ 0 =
                    v.registered k ∙ ap sleeping running in
                  rw (d, ← kj) (omega (arith, none_before))
              | inr d ↦ rw d (omega (arith, v.registered j))
            ]);
      enough = inl (rw empty (omega arith));
    })

    poll-takes :
        (x : A)
        → (take_value c.queue).1 ≡ some x
        → contents c.queue ≡ x ∷ contents (take_value c.queue).0
        → IsServed (polled c k (poll_next c.queue (c.receivers k) k))
    poll-takes x e left = rw (poll_ready c.queue (c.receivers k) k x e) (record {
      registered = λ j. ap (times j) (taken_notifiers c.queue) ∙ v.registered j;
      enough = elim v.enough [
        | inl le ↦ let fewer = ap length left in inl (omega (arith, le, fewer))
        | inr all ↦ inr all
      ];
    })

    poll-IsServed : IsServed (polled c k (poll_next c.queue (c.receivers k) k))
    unfolding pop_front
    poll-IsServed = elim (pop_front-contents c.queue) [
      | inl (empty, popped) ↦ poll-sleeps empty popped
      | inr (x, popped, left) ↦ poll-takes x popped left
    ]

  step-IsServed : (c : Readers A) (e : Event A) → IsServed c → IsServed (step c e)
  unfolding step
  step-IsServed c (pushes p x) v = push-IsServed c p x v
  step-IsServed c (polls k) v = by_state (get_elem? c.asleep k) refl
    where
      by_state :
          (o : Option Bool)
          → get_elem? c.asleep k ≡ o
          → IsServed (elim o as (λ _. Readers A) [
            | none ↦ c
            | some true ↦ c
            | some false ↦ polled c k (poll_next c.queue (c.receivers k) k)
          ])
      by_state none e = v
      by_state (some true) e = v
      by_state (some false) e = poll-IsServed c k v e

  -- From tasks of which each that sleeps has its waker registered once and no other has, and of
  -- which as many are awake as there are values to read, or all, any history of pushes and of
  -- polls leads to such tasks again: no task sleeps over a value that no other task is awake for.
  pub run_all-IsServed : (c : Readers A) (es : List (Event A)) → IsServed c → IsServed (run c es)
  unfolding run
  run_all-IsServed c [] v = v
  run_all-IsServed c (e ∷ es) v = run_all-IsServed (step c e) es (step-IsServed c e v)
