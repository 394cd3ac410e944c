-- ===== src/Manager/Chain.antt =====
-- Turns of the signal loop one after the other, each with what holds before and after it.
use rex_sm.Base.{ℕ, suc, ◌≡◌, refl, ap, none, some, List, [], ◌∷◌, map_get}
use rex_sm.Kind.{Rex}
use rex_sm.Queue.Deque.{StreamableDeque, pop_front}
use rex_sm.Timeout.Manager.{Signal}
use rex_sm.Manager.World.{World, Key}
use rex_sm.Manager.Dispatch.{StateMachine, Machines, Turn, idle, handled, turn, turns}
use rex_sm.Manager.Loop.{turn_idle, turns_idle}
use rex_sm.Manager.Takes.{Takes}

module _ (R : Rex) (machines : Machines R) where
  -- what up to `n` turns come to
  abbrev pub Outcome : ℕ → List Turn → (World R → Type 0) → World R → Type 0
  Outcome n ts Q w = ((turns R n machines w).1 ≡ ts) × Q (turns R n machines w).0

  module _ (w : World R) (q : StreamableDeque (Signal (Key R) R.Input))
      (sig : Signal (Key R) R.Input) (sm : StateMachine R)
      (popped : pop_front w.signal_queue ≡ (q, some sig))
      (found : map_get R.kind_dec machines sig.id.kind ≡ some sm) {before after : World R → Type 0}
      (takes : Takes before (sm.process sig.id sig.input) tt after)
      (now_before : before (record w { signal_queue = q })) where
    turn-Takes : ((turn R machines w).1 ≡ handled) × after (turn R machines w).0
    unfolding turn
    turn-Takes =
        rw
          (
            turn,
            ap (λ r. r.1) popped,
            found,
            ap (λ r. r.0) popped,
            takes.returns (record w { signal_queue = q }) now_before,
          )
          (refl, takes.leads (record w { signal_queue = q }) now_before)

    next_turn :
        (n : ℕ)
        → turns R (suc n) machines w ≡ (
          (turns R n machines (turn R machines w).0).0,
          handled ∷ (turns R n machines (turn R machines w).0).1,
        )
    unfolding turns
    next_turn n = rw (turns, turn-Takes.0)

    pub Outcome-next :
        (n : ℕ) {ts : List Turn} (Q : World R → Type 0)
        → ((v : World R) → after v → Outcome n ts Q v)
        → Outcome (suc n) (handled ∷ ts) Q w
    Outcome-next n Q later =
        let (r, end) = later (turn R machines w).0 turn-Takes.1 in
        rw (next_turn n) (ap (◌∷◌ handled) r, end)

  pub Outcome-idle :
      (n : ℕ) (w : World R) (Q : World R → Type 0)
      → pop_front w.signal_queue ≡ (w.signal_queue, none)
      → Q w
      → Outcome (suc n) (idle ∷ []) Q w
  Outcome-idle n w Q popped h =
      rw (turns_idle R machines n w (turn_idle R machines w popped)) (refl, h)
