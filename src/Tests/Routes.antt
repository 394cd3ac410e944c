-- ===== src/Tests/Routes.antt =====
-- Witnesses for the notifications and the packets.
use rex_sm.Base.{
  ℕ, suc, ◌+◌, ◌≡◌, refl, ◌⊎◌, true, false, some, List, [], ◌∷◌, ◌++◌, ok, panic, length,
  ℕ_discrete, map_get, are_distinct, value_of,
}
use rex_sm.Kind.{Key}
use rex_sm.Queue.Deque.{StreamableDeque}
use rex_sm.Queue.Order.{contents}
use rex_sm.Timeout.Manager.{Signal}
use rex_sm.Notification.Topics.{Processor, new_processors, pump}
use rex_sm.Notification.Delivery.{sends_all, pump-sends_all}
use rex_sm.Ingress.Router.{Attempt, done, StateRouter, new_router, process_inbound}
use rex_sm.Ingress.Inbound.{signals_of, new_router-distinct, process_inbound-signals_of}
use rex_sm.Tests.Worlds.{numbers, root_id}

abbrev processors : List (Processor ℕ ℕ)
processors = record { topics = 1 ∷ 2 ∷ []; tx = 10 } ∷ record { topics = 2 ∷ []; tx = 20 } ∷ []

-- a message is its topic
abbrev topic : ℕ → ℕ
topic m = m

abbrev messages : StreamableDeque ℕ
messages = record {
  front_values = 2 ∷ [];
  back_values = 1 ∷ 9 ∷ [];
  rx_notifiers = [];
  runtime = record { flags = []; woken = [] };
}

pump-sends_all_example :
    let (q', sent) =
      pump ℕ_discrete topic
        (suc (length (contents messages)))
        (new_processors ℕ_discrete [] processors)
        messages in
    (sent ≡ sends_all ℕ_discrete topic processors (contents messages)) × (contents q' ≡ [])
pump-sends_all_example = pump-sends_all ℕ_discrete topic processors messages

abbrev router : StateRouter numbers ℕ
router = record { kind = 5; get_id = λ packet. done (some root_id) }

abbrev routers : List (StateRouter numbers ℕ)
routers = router ∷ []

new_router-distinct_example :
    ((are_distinct ℕ_discrete (λ r. r.kind) (router ∷ router ∷ []) ≡ true)
      × ((m : List (ℕ × StateRouter numbers ℕ)) × (new_router numbers (router ∷ router ∷ []) ≡ ok m)
          × ((k : ℕ)
              → map_get ℕ_discrete m k
                ≡ value_of ℕ_discrete (λ r. r.kind) k (router ∷ router ∷ []))))
    ⊎ ((are_distinct ℕ_discrete (λ r. r.kind) (router ∷ router ∷ []) ≡ false)
        × (new_router numbers (router ∷ router ∷ []) ≡ panic))
new_router-distinct_example = new_router-distinct numbers (router ∷ router ∷ [])

abbrev kind_of : ℕ → Attempt ℕ
kind_of packet = done packet

abbrev input_of : ℕ → Attempt ℕ
input_of packet = done (packet + 1)

abbrev no_signals : StreamableDeque (Signal (Key numbers) ℕ)
no_signals = record {
  front_values = [];
  back_values = [];
  rx_notifiers = [];
  runtime = record { flags = []; woken = [] };
}

routers_distinct : are_distinct ℕ_discrete (λ r. r.kind) routers ≡ true
unfolding are_distinct
routers_distinct = refl

process_inbound-signals_of_example :
    (m : List (ℕ × StateRouter numbers ℕ)) × (new_router numbers routers ≡ ok m)
    × (let q' = process_inbound numbers kind_of input_of m (5 ∷ 6 ∷ []) no_signals in
        (q'.front_values ≡ no_signals.front_values)
        × (q'.back_values
            ≡ no_signals.back_values ++ signals_of numbers kind_of input_of routers (5 ∷ 6 ∷ [])))
process_inbound-signals_of_example =
    process_inbound-signals_of numbers kind_of input_of routers (5 ∷ 6 ∷ []) no_signals
      routers_distinct
