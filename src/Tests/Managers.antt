-- ===== src/Tests/Managers.antt =====
-- Witnesses for the state machines and the signal loop.
use rex_sm.Base.{
  ℕ, suc, ◌≡◌, refl, sym, ap, ◌∙◌, ◌⊎◌, inl, inr, Bool-cases, eqb, true, false, Option, none, some,
  [], ◌∷◌, Result, ok, panic, length, ℕ_discrete, map_get, are_distinct, value_of,
}
use rex_sm.Kind.{Key, id_dec, is_nil}
use rex_sm.Queue.Order.{contents}
use rex_sm.Storage.Linked.{Written, peek_parent, peek_state}
use rex_sm.Storage.Grown.{Added}
use rex_sm.Manager.World.{World, new_state, get_state, get_parent_id}
use rex_sm.Manager.Machine.{create_tree, new_child, update, update_state_and_signal}
use rex_sm.Manager.Dispatch.{StateMachine, Machines, new_manager, turn, turns, process_turn}
use mathlib.Core.Option
use rex_sm.Node.Tree.{state}
use rex_sm.Node.Spec.{find_node, parent_in}
use rex_sm.Storage.Found.{first_of}
use rex_sm.Manager.Found.{get-first_of}
use rex_sm.Manager.States.{told, update_state_and_signal-Written}
use rex_sm.Manager.Total.{IsMissing, IsStored, new_child-total, update-total}
use rex_sm.Manager.Created.{new_child-Added, create_tree-Added}
use rex_sm.Manager.Machines.{new_manager-distinct}
use rex_sm.Manager.Loop.{IsQuiet, outcomes, given_all, turns-outcomes, turn-parent}
use rex_sm.Tests.Worlds.{
  numbers, root_id, child_id, empty_world, empty_world-IsLinked, some_root, some_child, one_tree,
  one_tree-IsLinked, root_at, child_fresh, family, family-IsLinked, child_at, child_parent, machine,
}

create_tree-Added_example :
    let (w', r) = create_tree numbers root_id empty_world in
    (r ≡ ok tt)
    × Added
        (id_dec numbers)
        root_id
        none
        (new_state numbers root_id)
        empty_world.state_store
        w'.state_store
    × (w'.signal_queue ≡ empty_world.signal_queue)
    × (w'.notification_queue ≡ empty_world.notification_queue)
create_tree-Added_example =
    create_tree-Added numbers empty_world root_id some_root empty_world-IsLinked refl

new_child-Added_example :
    let (w', r) = new_child numbers root_id child_id one_tree in
    (r ≡ ok tt)
    × Added
        (id_dec numbers)
        child_id
        (some root_id)
        (new_state numbers child_id)
        one_tree.state_store
        w'.state_store
    × (w'.signal_queue ≡ one_tree.signal_queue)
    × (w'.notification_queue ≡ one_tree.notification_queue)
new_child-Added_example =
    new_child-Added numbers one_tree root_id 0 some_root one_tree-IsLinked root_at child_id
      some_child child_fresh

new_child-total_example :
    ((IsMissing numbers one_tree root_id ⊎ (is_nil numbers child_id ≡ true))
      × (new_child numbers root_id child_id one_tree ≡ (one_tree, panic)))
    ⊎ (let (w', r) = new_child numbers root_id child_id one_tree in
        IsStored numbers one_tree root_id
        × (is_nil numbers child_id ≡ false)
        × (r ≡ ok tt)
        × Added
            (id_dec numbers)
            child_id
            (some root_id)
            (new_state numbers child_id)
            one_tree.state_store
            w'.state_store
        × (w'.signal_queue ≡ one_tree.signal_queue)
        × (w'.notification_queue ≡ one_tree.notification_queue))
new_child-total_example =
    new_child-total numbers one_tree root_id one_tree-IsLinked child_id child_fresh

update-total_example :
    (IsMissing numbers family child_id × (update numbers child_id 7 family ≡ (family, panic)))
    ⊎ (let (w', r) = update numbers child_id 7 family in
        IsStored numbers family child_id
        × (r ≡ ok tt)
        × Written (id_dec numbers) child_id 7 family.state_store w'.state_store
        × (w'.signal_queue ≡ family.signal_queue)
        × (w'.notification_queue ≡ family.notification_queue))
update-total_example = update-total numbers family child_id family-IsLinked 7

update_state_and_signal-Written_example :
    let (w', r) = update_state_and_signal numbers child_id 7 family in
    (r ≡ peek_parent (id_dec numbers) family.state_store child_id)
    × Written (id_dec numbers) child_id 7 family.state_store w'.state_store
    × (w'.signal_queue ≡ told numbers 7 r family.signal_queue)
    × (w'.notification_queue ≡ family.notification_queue)
update_state_and_signal-Written_example =
    update_state_and_signal-Written numbers family child_id 0 some_child family-IsLinked child_at 7

get-first_of_example :
    let heap = family.state_store.heap in
    (get_state numbers child_id family
      ≡ (family, ok (Option.map state (first_of (find_node (id_dec numbers) child_id) heap))))
    × (get_parent_id numbers child_id family
        ≡ (family, ok (first_of (parent_in (id_dec numbers) child_id) heap)))
get-first_of_example = get-first_of numbers family child_id some_child family-IsLinked

abbrev table : Machines numbers
table = (5, machine 5) ∷ (6, machine 6) ∷ []

family_empty : contents family.signal_queue ≡ []
family_empty =
    let (returned, added, same, notes) =
      new_child-Added numbers one_tree root_id 0 some_root one_tree-IsLinked root_at child_id
        some_child child_fresh in
    let (returned', added', same', notes') =
      create_tree-Added numbers empty_world root_id some_root empty_world-IsLinked refl in
    ap contents (same ∙ same')

root_machine : map_get ℕ_discrete table 5 ≡ some (machine 5)
unfolding map_get ℕ_discrete
root_machine = refl

turn-parent_example :
    let w' = (update_state_and_signal numbers child_id 7 family).0 in
    (w'' : World numbers) × (turn numbers table w'
      ≡ process_turn numbers ((machine 5).process root_id 7 w''))
    × (peek_state (id_dec numbers) w''.state_store child_id ≡ ok (some 7))
    × (contents w''.signal_queue ≡ [])
turn-parent_example =
    turn-parent numbers table family child_id root_id 0 7 7 (machine 5) some_child family-IsLinked
      child_at child_parent family_empty refl root_machine

new_manager-distinct_example :
    ((are_distinct ℕ_discrete (λ sm. sm.kind) (machine 5 ∷ machine 5 ∷ []) ≡ true)
      × ((machines : Machines numbers) × (new_manager numbers (machine 5 ∷ machine 5 ∷ [])
            ≡ ok machines)
          × ((k : ℕ)
              → map_get ℕ_discrete machines k
                ≡ value_of ℕ_discrete (λ sm. sm.kind) k (machine 5 ∷ machine 5 ∷ []))))
    ⊎ ((are_distinct ℕ_discrete (λ sm. sm.kind) (machine 5 ∷ machine 5 ∷ []) ≡ false)
        × (new_manager numbers (machine 5 ∷ machine 5 ∷ []) ≡ panic))
new_manager-distinct_example = new_manager-distinct numbers (machine 5 ∷ machine 5 ∷ [])

abbrev one_machine : Machines numbers
one_machine = (5, machine 5) ∷ []

abbrev process_with :
    Key numbers
    → ℕ
    → World numbers
    → Option (StateMachine numbers)
    → World numbers × Result (Unit {0})
process_with i input w none = (w, ok tt)
process_with i input w (some sm) = sm.process i input w

one_machine_process :
    (k : ℕ) (i : Key numbers) (input : ℕ) (w : World numbers)
    → process_with i input w (map_get ℕ_discrete one_machine k) ≡ (w, ok tt)
unfolding map_get
one_machine_process k i input w = elim (Bool-cases (eqb ℕ_discrete 5 k)) [
  | inl e ↦ rw e
  | inr e ↦ rw e
]

one_machine-IsQuiet : IsQuiet numbers one_machine
one_machine-IsQuiet k sm e i input w =
    let same : sm.process i input w ≡ (w, ok tt) =
      sym (ap (process_with i input w) e) ∙ one_machine_process k i input w in
    (ap (λ r. r.1) same, ap (λ r. r.0.signal_queue) same)

abbrev with_signals : World numbers
with_signals = record empty_world {
  signal_queue = record {
    front_values = record { id = root_id; input = 3 } ∷ [];
    back_values = record { id = child_id; input = 4 } ∷ [];
    rx_notifiers = [];
    runtime = record { flags = []; woken = [] };
  };
}

turns-outcomes_example :
    let (w', log) =
      turns numbers (suc (length (contents with_signals.signal_queue))) one_machine with_signals in
    (log ≡ outcomes numbers one_machine (contents with_signals.signal_queue))
    × (contents w'.signal_queue ≡ [])
    × (w' ≡ given_all numbers one_machine with_signals (contents with_signals.signal_queue))
turns-outcomes_example = turns-outcomes numbers one_machine with_signals one_machine-IsQuiet
