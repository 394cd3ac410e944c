-- ===== src/Timeout/Manager.antt =====
-- src/timeout.rs: the bodies of the two loops of `TimeoutManager::init_inner_with_handle`, the one
-- that takes notifications and the one that ticks.
use rex_sm.Base.{ℕ, Option, none, some, List, [], ◌∷◌, ◌++◌, tree_before, tree_from}
use rex_sm.Queue.Deque.{StreamableDeque, push_front}
use rex_sm.Timeout.Request.{Operation, UnaryRequest}
use rex_sm.Timeout.Ledger.{Ledger, retain, set_timeout, cancel_timeout, with_key}

pub record Signal {ℓ} (Key Input : Type ℓ) : Type ℓ where
  pub id : Key
  pub input : Input

-- `into_values().flat_map(IntoIterator::into_iter)`
unfoldable pub values {ℓ} : {A : Type ℓ} → List (ℕ × List A) → List A
values [] = []
values ((k, xs) ∷ l) = xs ++ values l

module _ {ℓ} {Key T : Type ℓ} (dec : Discrete Key) where
  unfoldable pub apply_op : Ledger Key T → Key → Operation T → Ledger Key T
  apply_op l i Operation.cancel = cancel_timeout dec l i
  apply_op l i (Operation.set instant) = set_timeout dec l i instant
  apply_op l i (Operation.retain item instant) = retain l i instant item

  -- One message, as `try_into` converts it; a message that is no request is skipped.
  unfoldable pub receive : Ledger Key T → Option (UnaryRequest Key T) → Ledger Key T
  receive l none = l
  receive l (some request) = apply_op l request.id request.op

module _ {ℓ} {Key Input : Type ℓ} where
  unfoldable pub fire :
      StreamableDeque (Signal Key Input) → Key → Option Input → StreamableDeque (Signal Key Input)
  fire q i none = q
  fire q i (some input) = push_front q (record { id = i; input = input })

  -- the loop over the ids that are out of time
  unfoldable pub fire_timers :
      (dec : Discrete Key)
      → (Key → Option Input)
      → List Key
      → (Key → Option ℕ) × StreamableDeque (Signal Key Input)
      → (Key → Option ℕ) × StreamableDeque (Signal Key Input)
  fire_timers dec timeout_input [] (ids, q) = (ids, q)
  fire_timers dec timeout_input (i ∷ is) (ids, q) =
      fire_timers dec timeout_input is (with_key dec i none ids, fire q i (timeout_input i))

module _ {ℓ} {Key T Input : Type ℓ} where
  -- the loop over the items to give back
  unfoldable pub fire_items :
      (Key → T → Option Input)
      → List (Key × T)
      → StreamableDeque (Signal Key Input)
      → StreamableDeque (Signal Key Input)
  fire_items return_item [] q = q
  fire_items return_item ((i, item) ∷ es) q =
      fire_items return_item es (fire q i (return_item i item))

  module _ (dec : Discrete Key) (timeout_input : Key → ℕ → Option Input)
      (return_item : Key → T → Option Input) where
    -- one tick, at the instant `now`
    unfoldable pub tick :
        ℕ
        → Ledger Key T
        → StreamableDeque (Signal Key Input)
        → Ledger Key T × StreamableDeque (Signal Key Input)
    tick now l q =
        let release = values (tree_before now l.timers) in
        let (ids, q₁) = fire_timers dec (λ i. timeout_input i now) release (l.ids, q) in
        let items = values (tree_before now l.retainer) in
        (
          record {
            timers = tree_from now l.timers;
            ids = ids;
            retainer = tree_from now l.retainer;
          },
          fire_items return_item items q₁,
        )
