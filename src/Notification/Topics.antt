-- ===== src/Notification/Topics.antt =====
-- src/notification.rs: `NotificationManager`. A channel of another package is a parameter: what the
-- manager does is the list of its calls of `send`, each with the sender and the message.
use rex_sm.Base.{
  ℕ, zero, suc, Option, none, some, List, [], ◌∷◌, ◌++◌, map, push, last_of, init_of, map_get,
  map_insert,
}
use rex_sm.Queue.Deque.{StreamableDeque, pop_front}

-- `NotificationProcessor`: what `get_topics` and `init` return
pub record Processor (Topic Tx : Type 0) : Type 0 where
  pub topics : List Topic
  pub tx : Tx

abbrev pub or_default : {Tx : Type 0} → Option (List Tx) → List Tx
or_default none = []
or_default (some txs) = txs

module _ {Topic Tx : Type 0} (dec : Discrete Topic) where
  -- `subscribers.entry(*topic).or_default().push(tx)`
  unfoldable pub subscribe : List (Topic × List Tx) → Topic → Tx → List (Topic × List Tx)
  subscribe m topic tx = map_insert dec topic (push (or_default (map_get dec m topic)) tx) m

  -- the `for` loop of the closure
  unfoldable pub subscribe_all : List (Topic × List Tx) → List Topic → Tx → List (Topic × List Tx)
  unfolding subscribe
  subscribe_all m [] tx = m
  subscribe_all m (topic ∷ topics) tx = subscribe_all (subscribe m topic tx) topics tx

  -- `NotificationManager::new`
  unfoldable pub new_processors :
      List (Topic × List Tx) → List (Processor Topic Tx) → List (Topic × List Tx)
  unfolding subscribe_all
  new_processors m [] = m
  new_processors m (p ∷ ps) = new_processors (subscribe_all m p.topics p.tx) ps

-- `split_last`
unfoldable pub split_last : {A : Type 0} → List A → Option (A × List A)
split_last [] = none
split_last (x ∷ xs) = some (last_of x xs, init_of x xs)

module _ {Topic Tx M : Type 0} (dec : Discrete Topic) (get_topic : M → Topic) where
  abbrev pub send_to : M → Option (Tx × List Tx) → List (Tx × M)
  send_to n none = []
  send_to n (some (last, rest)) = map (λ tx. (tx, n)) rest ++ ((last, n) ∷ [])

  -- The body of the loop of `NotificationManager::init`.
  unfoldable pub dispatch : List (Topic × List Tx) → M → List (Tx × M)
  unfolding split_last
  dispatch processors n = elim (map_get dec processors (get_topic n)) [
    | none ↦ []
    | some subscribers ↦ send_to n (split_last subscribers)
  ]

  -- The loop for `fuel` turns, up to the first in which it waits.
  unfoldable pub pump :
      ℕ → List (Topic × List Tx) → StreamableDeque M → StreamableDeque M × List (Tx × M)
  unfolding dispatch
  pump zero processors q = (q, [])
  pump (suc fuel) processors q =
      let rest = pump fuel processors (pop_front q).0 in
      elim (pop_front q).1 [
        | none ↦ ((pop_front q).0, [])
        | some n ↦ (rest.0, dispatch processors n ++ rest.1)
      ]
