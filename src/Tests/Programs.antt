-- ===== src/Tests/Programs.antt =====
-- Witnesses for a timeout on its way through the program: one subscriber, and an id of 10 ms.
use rex_sm.Base.{
  ℕ, ◌+◌, ◌≤◌, ◌<◌, ◌≡◌, ◌⊎◌, ◌++◌, ◌∷◌, refl, true, none, some, List, [], contains, ℕ_discrete,
}
use rex_sm.Kind.{Key, id_dec}
use rex_sm.Timeout.Ledger.{Ledger, new}
use rex_sm.Timeout.Manager.{Signal}
use rex_sm.Timeout.Index.{new-IsIndexed}
use rex_sm.Notification.Topics.{Processor}
use rex_sm.Notification.Delivery.{receivers, times_named}
use rex_sm.Manager.World.{World}
use rex_sm.Manager.Machine.{set_timeout, cancel_timeout}
use rex_sm.Program.Deadlines.{
  settle, tick_at, IsSilent, set_timeout-signals, cancel_timeout-IsSilent,
}
use rex_sm.Tests.Worlds.{numbers, child_id, empty_world}

abbrev one_subscriber : List (Processor ℕ ℕ)
one_subscriber = record { topics = 0 ∷ []; tx = 9 } ∷ []

abbrev no_timers : Ledger (Key numbers) ℕ
no_timers = new

listens : contains ℕ_discrete 9 (receivers ℕ_discrete 0 one_subscriber) ≡ true
unfolding receivers times_named contains ℕ_discrete
listens = refl

abbrev told : World numbers
told = (set_timeout numbers 100 child_id 10 empty_world).0

set_timeout-signals_example :
    let (l', q') =
      tick_at numbers ℕ_discrete 9 ℕ_discrete one_subscriber 111
        (settle numbers ℕ_discrete 9 ℕ_discrete one_subscriber told no_timers)
        told.signal_queue in
    ((111 ≤ 100 + 10)
      × (l'.ids child_id ≡ some (100 + 10))
      × IsSilent numbers ℕ_discrete 9 ℕ_discrete one_subscriber child_id 111
          empty_world.signal_queue q')
    ⊎ ((100 + 10 < 111)
        × (l'.ids child_id ≡ none)
        × (xs ys : List (Signal (Key numbers) ℕ)) × (q'.front_values
            ≡ xs ++ (record { id = child_id; input = 111 } ∷ ys)))
set_timeout-signals_example =
    set_timeout-signals numbers ℕ_discrete 9 ℕ_discrete one_subscriber empty_world no_timers
      child_id (new-IsIndexed (id_dec numbers)) refl 100 10 111 111 refl listens refl

cancel_timeout-IsSilent_example :
    let w' = (cancel_timeout numbers child_id empty_world).0 in
    let (l', q') =
      tick_at numbers ℕ_discrete 9 ℕ_discrete one_subscriber 111
        (settle numbers ℕ_discrete 9 ℕ_discrete one_subscriber w' no_timers)
        w'.signal_queue in
    ((settle numbers ℕ_discrete 9 ℕ_discrete one_subscriber w' no_timers).ids child_id ≡ none)
    × (l'.ids child_id ≡ none)
    × IsSilent numbers ℕ_discrete 9 ℕ_discrete one_subscriber child_id 111 empty_world.signal_queue
        q'
cancel_timeout-IsSilent_example =
    cancel_timeout-IsSilent numbers ℕ_discrete 9 ℕ_discrete one_subscriber empty_world no_timers
      child_id (new-IsIndexed (id_dec numbers)) refl 111 refl listens
