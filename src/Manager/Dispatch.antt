-- ===== src/Manager/Dispatch.antt =====
-- src/manager.rs: `StateMachineManager`, the table of the state machines and the loop that hands
-- each signal to the machine of its id's kind.
use rex_sm.Base.{
  ℕ, zero, suc, none, some, List, [], ◌∷◌, length, Result, ok, ◌>>◌, natb, assert, map_get, collect,
}
use rex_sm.Kind.{Rex, Key}
use rex_sm.Queue.Deque.{pop_front}
use rex_sm.Manager.Action.{Action}
use rex_sm.Manager.World.{World}

-- `BoxedStateMachine`: a user of the library writes `process`.
pub record StateMachine (R : Rex) : Type 0 where
  pub kind : R.Kind
  pub process : Key R → R.Input → Action (World R) (Unit {0})

-- What one turn of the loop does: it waits, it goes on, or the task ends by a panic.
pub data Turn : Type 0 where
  idle handled unknown died : Turn

module _ (R : Rex) where
  -- the `HashMap`
  abbrev pub Machines : Type 0
  Machines = List (R.Kind × StateMachine R)

  -- `StateMachineManager::new`
  unfoldable pub new_manager : List (StateMachine R) → Result Machines
  unfolding collect
  new_manager sms =
      let machines = collect R.kind_dec (λ sm. sm.kind) [] sms in
      assert (natb (length sms) (length machines)) >> ok machines

  abbrev pub process_turn : World R × Result (Unit {0}) → World R × Turn
  process_turn (w, ok u) = (w, handled)
  process_turn (w, r) = (w, died)

  -- One turn of the loop of `StateMachineManager::init`.
  unfoldable pub turn : Machines → World R → World R × Turn
  unfolding map_get
  turn machines w =
      let popped = pop_front w.signal_queue in
      let w' = record w { signal_queue = popped.0 } in
      elim popped.1 [
        | none ↦ (w', idle)
        | some signal ↦ elim (map_get R.kind_dec machines signal.id.kind) [
          | none ↦ (w', unknown)
          | some sm ↦ process_turn (sm.process signal.id signal.input w')
        ]
      ]

  -- The loop for at most `n` turns, up to the first in which it waits or its task ends.
  unfoldable pub turns : ℕ → Machines → World R → World R × List Turn
  unfolding turn
  turns zero machines w = (w, [])
  turns (suc n) machines w =
      let (w', t) = turn machines w in
      let rest = turns n machines w' in
      elim t [
        | idle ↦ (w', idle ∷ [])
        | died ↦ (w', died ∷ [])
        | handled ↦ (rest.0, handled ∷ rest.1)
        | unknown ↦ (rest.0, unknown ∷ rest.1)
      ]
