-- ===== src/Queue/Deque.antt =====
-- src/queue.rs: `StreamableDeque` and its `StreamReceiver`.
-- An `Arc<AtomicBool>` is its address in `flags`; `woken` lists the wakers that were called, the
-- last call first. Each operation holds the lock from its beginning to its end.
use rex_sm.Base.{
  ℕ, Bool, true, false, Option, none, some, List, [], ◌∷◌, push, length, set, get_elem?,
}

pub record ReceiverNotifier : Type 0 where
  pub handle : ℕ
  pub awake : ℕ

pub record Runtime : Type 0 where
  pub flags : List Bool
  pub woken : List ℕ

-- `notifier.handle.wake()` and `notifier.awake.store(true)`
abbrev pub wake : ReceiverNotifier → Runtime → Runtime
wake n rt = record { flags = set rt.flags n.awake true; woken = n.handle ∷ rt.woken }

pub record StreamableDeque {ℓ} (A : Type ℓ) : Type ℓ where
  pub front_values : List A
  pub back_values : List A
  pub rx_notifiers : List ReceiverNotifier
  pub runtime : Runtime

-- `StreamReceiver`, without the reference to its queue
pub record StreamReceiver : Type 0 where
  pub awake : Option ℕ

pub data Poll {ℓ} (A : Type ℓ) : Type ℓ where
  ready : A → Poll A
  pending : Poll A

abbrev pub stream : StreamReceiver
stream = record { awake = none }

-- `awake.load()`
abbrev pub is_awake : Runtime → StreamReceiver → Bool
is_awake rt r = elim r.awake [
  | none ↦ false
  | some flag ↦ elim (get_elem? rt.flags flag) [ none ↦ false | some b ↦ b ]
]

module _ {ℓ} {A : Type ℓ} where
  unfoldable pub new : Runtime → StreamableDeque A
  new rt = record { front_values = []; back_values = []; rx_notifiers = []; runtime = rt }

  unfoldable pub notify_rx : StreamableDeque A → StreamableDeque A
  notify_rx q = elim q.rx_notifiers [
    | [] ↦ q
    | n ∷ rest ↦ record q { rx_notifiers = rest; runtime = wake n q.runtime }
  ]

  unfoldable pub push_front : StreamableDeque A → A → StreamableDeque A
  unfolding notify_rx
  push_front q item = notify_rx (record q { front_values = push q.front_values item })

  unfoldable pub push_back : StreamableDeque A → A → StreamableDeque A
  unfolding notify_rx
  push_back q item = notify_rx (record q { back_values = push q.back_values item })

  -- `front_values.pop_front().or_else(|| back_values.pop_front())`
  unfoldable pub take_value : StreamableDeque A → StreamableDeque A × Option A
  take_value q = elim q.front_values [
    | x ∷ xs ↦ (record q { front_values = xs }, some x)
    | [] ↦ elim q.back_values [ y ∷ ys ↦ (record q { back_values = ys }, some y) | [] ↦ (q, none) ]
  ]

  unfoldable pub pop_front : StreamableDeque A → StreamableDeque A × Option A
  unfolding take_value
  pop_front q = take_value q

  -- `poll_next` in a task with the given waker
  unfoldable pub poll_next :
      StreamableDeque A → StreamReceiver → ℕ → StreamableDeque A × StreamReceiver × Poll A
  unfolding take_value
  poll_next q r waker = elim (take_value q).1 [
    | some v ↦ ((take_value q).0, record { awake = none }, ready v)
    | none ↦
        let flag = length q.runtime.flags in
        (
          record q {
            rx_notifiers = push q.rx_notifiers (record { handle = waker; awake = flag });
            runtime = record { flags = push q.runtime.flags false; woken = q.runtime.woken };
          },
          record { awake = some flag },
          pending,
        )
  ]

  unfoldable pub drop : StreamableDeque A → StreamReceiver → StreamableDeque A
  unfolding notify_rx
  drop q r = elim (is_awake q.runtime r) [ true ↦ notify_rx q | false ↦ q ]
