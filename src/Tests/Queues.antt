-- ===== src/Tests/Queues.antt =====
-- Witnesses for the queue.
use rex_sm.Base.{ℕ, ◌≡◌, refl, false, some, List, [], ◌∷◌, ◌++◌, length}
use rex_sm.Queue.Deque.{StreamableDeque, Runtime, ReceiverNotifier, push_back, drop}
use rex_sm.Queue.Order.{Priority, front, back, push_all, pushed_with, pops, somes, pops-push_all}
use rex_sm.Queue.Wakeups.{push_back-drop}

abbrev quiet : Runtime
quiet = record { flags = []; woken = [] }

abbrev two_values : StreamableDeque ℕ
two_values = record {
  front_values = 7 ∷ [];
  back_values = 8 ∷ [];
  rx_notifiers = [];
  runtime = quiet;
}

abbrev entries : List (Priority × ℕ)
entries = (back, 1) ∷ (front, 2) ∷ (back, 3) ∷ (front, 4) ∷ []

pops-push_all_example :
    let out = ((7 ∷ []) ++ pushed_with front entries) ++ ((8 ∷ []) ++ pushed_with back entries) in
    pops (length out) (push_all two_values entries) ≡ somes out
pops-push_all_example = pops-push_all two_values entries

abbrev dropped : ReceiverNotifier
dropped = record { handle = 5; awake = 0 }

abbrev second : ReceiverNotifier
second = record { handle = 6; awake = 1 }

abbrev two_waiting : StreamableDeque ℕ
two_waiting = record {
  front_values = [];
  back_values = [];
  rx_notifiers = dropped ∷ second ∷ [];
  runtime = record { flags = false ∷ false ∷ []; woken = [] };
}

push_back-drop_example :
    let q' = push_back (drop two_waiting (record { awake = some 0 })) 9 in
    (q'.runtime.woken ≡ 5 ∷ []) × (q'.rx_notifiers ≡ second ∷ [])
push_back-drop_example = push_back-drop two_waiting dropped second [] 9 refl refl
