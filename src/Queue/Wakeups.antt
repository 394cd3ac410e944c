-- ===== src/Queue/Wakeups.antt =====
-- A receiver that is dropped while its poll is pending.
use rex_sm.Base.{◌≡◌, false, some, List, ◌∷◌, arith}
use rex_sm.Queue.Deque.{StreamableDeque, ReceiverNotifier, is_awake, push_back, drop}

module _ {ℓ} {A : Type ℓ} where
  -- Where the first notifier of the queue is that of a receiver that was not woken, and a second
  -- one waits, dropping that receiver leaves its notifier: the next push calls its waker and leaves
  -- the second receiver asleep.
  pub push_back-drop :
      (q : StreamableDeque A) (n m : ReceiverNotifier) (rest : List ReceiverNotifier) (x : A)
      → q.rx_notifiers ≡ n ∷ m ∷ rest
      → is_awake q.runtime (record { awake = some n.awake }) ≡ false
      → let q' = push_back (drop q (record { awake = some n.awake })) x in
        (q'.runtime.woken ≡ n.handle ∷ q.runtime.woken) × (q'.rx_notifiers ≡ m ∷ rest)
  unfolding push_back drop
  push_back-drop q n m rest x e f = ground arith
