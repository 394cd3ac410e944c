-- ===== src/Queue/Readers.antt =====
-- Several tasks that read the queue as streams, none of which drops its stream: a task sleeps after
-- a pending poll, and runs again when its waker is called. Task `k` has the waker `k`.
use rex_sm.Base.{
  ℕ, suc, ◌≤◌, ◌≡◌, ◌⊎◌, Bool, true, false, Option, none, some, List, [], ◌∷◌, length, set,
  get_elem?, ltb, natb, if◌then◌else◌,
}
use rex_sm.Queue.Deque.{
  StreamableDeque, StreamReceiver, ReceiverNotifier, Poll, ready, pending, Runtime, poll_next,
}
use rex_sm.Queue.Order.{Priority, push_as, contents}

pub record Readers {ℓ} (A : Type ℓ) : Type ℓ where
  pub queue : StreamableDeque A
  pub receivers : ℕ → StreamReceiver
  pub asleep : List Bool

pub data Event {ℓ} (A : Type ℓ) : Type ℓ where
  pushes : Priority → A → Event A
  polls : ℕ → Event A

-- how many tasks are not asleep
unfoldable pub awake : List Bool → ℕ
awake [] = 0
awake (true ∷ l) = awake l
awake (false ∷ l) = suc (awake l)

-- how often a waker is registered
unfoldable pub times : ℕ → List ReceiverNotifier → ℕ
times k [] = 0
times k (n ∷ ns) = if natb n.handle k then suc (times k ns) else times k ns

unfoldable pub sleeping : Option Bool → ℕ
sleeping none = 0
sleeping (some false) = 0
sleeping (some true) = 1

-- the task whose waker a push has called wakes up
abbrev pub wake_up : Runtime → Runtime → List Bool → List Bool
wake_up before after l =
    if ltb (length before.woken) (length after.woken)
    then elim after.woken [ [] ↦ l | h ∷ hs ↦ set l h false ]
    else l

module _ {ℓ} {A : Type ℓ} where
  abbrev pub pushed : Readers A → StreamableDeque A → Readers A
  pushed c q = record c { queue = q; asleep = wake_up c.queue.runtime q.runtime c.asleep }

  abbrev pub polled : Readers A → ℕ → StreamableDeque A × StreamReceiver × Poll A → Readers A
  polled c k (q, r, p) = record {
    queue = q;
    receivers = λ j. if natb k j then r else c.receivers j;
    asleep = elim p [ ready a ↦ c.asleep | pending ↦ set c.asleep k true ];
  }

  -- A task that sleeps, or that there is not, makes no poll.
  unfoldable pub step : Readers A → Event A → Readers A
  step c (pushes p x) = pushed c (push_as c.queue (p, x))
  step c (polls k) = elim (get_elem? c.asleep k) [
    | none ↦ c
    | some true ↦ c
    | some false ↦ polled c k (poll_next c.queue (c.receivers k) k)
  ]

  unfoldable pub run : Readers A → List (Event A) → Readers A
  unfolding step
  run c [] = c
  run c (e ∷ es) = run (step c e) es

  -- Each task that sleeps has its waker registered once, no other task has, and as many tasks are
  -- awake as there are values to read, or all.
  pub record IsServed (c : Readers A) : Type ℓ where
    pub registered : (k : ℕ) → times k c.queue.rx_notifiers ≡ sleeping (get_elem? c.asleep k)
    pub enough : (length (contents c.queue) ≤ awake c.asleep) ⊎ (awake c.asleep ≡ length c.asleep)
