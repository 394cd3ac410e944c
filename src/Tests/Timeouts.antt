-- ===== src/Tests/Timeouts.antt =====
-- Witnesses for the timeouts: an id is set, set again, and out of time.
use rex_sm.Base.{ℕ, ◌+◌, ◌≡◌, Option, some, List, [], ◌∷◌, ℕ_discrete}
use rex_sm.Queue.Deque.{StreamableDeque}
use rex_sm.Timeout.Request.{UnaryRequest, set, retain}
use rex_sm.Timeout.Ledger.{Ledger, new}
use rex_sm.Timeout.Manager.{Signal, receive, tick}
use rex_sm.Timeout.Index.{IsIndexed, new-IsIndexed}
use rex_sm.Timeout.History.{
  Event, message, ticks, run, notes, Ticked, receive-deadlines, tick-Ticked, run-notes,
}

abbrev on_time : ℕ → ℕ → Option ℕ
on_time i now = some (now + i)

abbrev on_item : ℕ → ℕ → Option ℕ
on_item i item = some item

abbrev no_signals : StreamableDeque (Signal ℕ ℕ)
no_signals = record {
  front_values = [];
  back_values = [];
  rx_notifiers = [];
  runtime = record { flags = []; woken = [] };
}

abbrev empty_ledger : Ledger ℕ ℕ
empty_ledger = new

abbrev set_1 : Option (UnaryRequest ℕ ℕ)
set_1 = some (record { id = 1; op = set 10 })

abbrev set_1_later : Option (UnaryRequest ℕ ℕ)
set_1_later = some (record { id = 1; op = set 20 })

abbrev keep_2 : Option (UnaryRequest ℕ ℕ)
keep_2 = some (record { id = 2; op = retain 77 15 })

abbrev keep_3 : Option (UnaryRequest ℕ ℕ)
keep_3 = some (record { id = 3; op = retain 78 30 })

abbrev one_timer : Ledger ℕ ℕ
one_timer = receive ℕ_discrete empty_ledger set_1

abbrev history : List (Event ℕ_discrete on_time on_item)
history = message set_1 ∷ message keep_2 ∷ ticks 5 ∷ message set_1_later ∷ ticks 15 ∷ ticks 25 ∷ []

empty-IsIndexed : IsIndexed ℕ_discrete empty_ledger
empty-IsIndexed = new-IsIndexed ℕ_discrete

one_timer-IsIndexed : IsIndexed ℕ_discrete one_timer
one_timer-IsIndexed = (receive-deadlines ℕ_discrete empty_ledger set_1 empty-IsIndexed).0

-- a timer that is out of time at 16, and two items, of which one is due then
abbrev with_items : Ledger ℕ ℕ
with_items = receive ℕ_discrete (receive ℕ_discrete one_timer keep_2) keep_3

with_items-IsIndexed : IsIndexed ℕ_discrete with_items
with_items-IsIndexed =
    (receive-deadlines ℕ_discrete (receive ℕ_discrete one_timer keep_2) keep_3
      (receive-deadlines ℕ_discrete one_timer keep_2 one_timer-IsIndexed).0).0

tick-Ticked_example :
    let (l', q') = tick ℕ_discrete on_time on_item 16 with_items no_signals in
    Ticked ℕ_discrete on_time on_item 16 with_items l' no_signals q'
tick-Ticked_example =
    tick-Ticked ℕ_discrete on_time on_item 16 with_items no_signals with_items-IsIndexed

run-notes_example :
    IsIndexed ℕ_discrete (run ℕ_discrete on_time on_item (empty_ledger, no_signals) history).0
    × ((run ℕ_discrete on_time on_item (empty_ledger, no_signals) history).0.ids
        ≡ notes ℕ_discrete on_time on_item empty_ledger.ids history)
run-notes_example =
    run-notes ℕ_discrete on_time on_item (empty_ledger, no_signals) history empty-IsIndexed
