-- ===== src/Manager/Found.antt =====
-- The reads of a context against a search of all trees.
use mathlib.Core.Option
use rex_sm.Base.{◌≡◌, ap, ◌∙◌, false, ok}
use rex_sm.Kind.{Rex, id_dec, is_nil}
use rex_sm.Node.Tree.{state}
use rex_sm.Node.Spec.{find_node, parent_in}
use rex_sm.Storage.Linked.{IsLinked}
use rex_sm.Storage.Found.{first_of, peek_state-first_of, peek_parent-first_of}
use rex_sm.Manager.World.{Key, World, get_state, get_parent_id}
use rex_sm.Manager.States.{get-peek}

-- On a linked store, `SmContext::get_state` and `get_parent_id` of an id that is not nil return the
-- state and the parent that a depth-first search for the id through every tree of the store finds, or
-- none where it finds none, and change nothing.
pub get-first_of :
    (R : Rex) (w : World R) (i : Key R)
    → is_nil R i ≡ false
    → IsLinked (id_dec R) w.state_store
    → let heap = w.state_store.heap in
      (get_state R i w ≡ (w, ok (Option.map state (first_of (find_node (id_dec R) i) heap))))
      × (get_parent_id R i w ≡ (w, ok (first_of (parent_in (id_dec R) i) heap)))
get-first_of R w i some_id linked =
    let (reads, leads) = get-peek R w i some_id linked in
    (
      reads ∙ ap (λ r. (w, r)) (peek_state-first_of (id_dec R) w.state_store linked i),
      leads ∙ ap (λ r. (w, r)) (peek_parent-first_of (id_dec R) w.state_store linked i),
    )
