-- ===== src/Manager/Reach.antt =====
-- The worlds that state machines reach that use a fresh id for each new state: a step relation with
-- one constructor for each thing that a context lets a machine do to the store, and one for all that
-- touches the queues alone. A context also lets a machine give a stored id to `create_tree` and
-- `new_child`, and then an id may point at a tree that is not the only one that holds it; such calls
-- are no steps.
use rex_sm.Base.{ℕ, ◌≡◌, inl, inr, false, none, get_elem?, Option-cases}
use rex_sm.Kind.{Rex, id_dec, is_nil}
use rex_sm.Node.Tree.{id}
use rex_sm.Node.Edit.{update_all_fn}
use rex_sm.Node.Visit.{
  rewrite_state, map_states, update_all_fn_lem, has-map_states, map_states-IsKeyed,
}
use rex_sm.Storage.Linked.{IsLinked, root_at, cell-IsKeyed, with_cell-IsLinked}
use rex_sm.Manager.Action.{Action, ◌>>=◌}
use rex_sm.Manager.World.{Key, World, new_state, lock, with_lock}
use rex_sm.Manager.Machine.{update, update_state_and_signal, new_child, create_tree}
use rex_sm.Manager.States.{with_lock_lem}
use rex_sm.Manager.Created.{create_tree-Added}
use rex_sm.Manager.Total.{update-total, update_state_and_signal-total, new_child-total}

module _ (R : Rex) where
  abbrev pub rewrite_all : (R.State → R.State) → ℕ → Action (World R) (Unit {0})
  rewrite_all f a = with_lock R a (λ n. update_all_fn (rewrite_state f) (new_state R) n)

  pub data Step (w w' : World R) : Type 0 where
    creates :
        (x : Key R)
        → is_nil R x ≡ false
        → w.state_store.trees x ≡ none
        → w' ≡ (create_tree R x w).0
        → Step w w'
    adds : (i x : Key R) → w.state_store.trees x ≡ none → w' ≡ (new_child R i x w).0 → Step w w'
    updates : (i : Key R) (v : R.State) → w' ≡ (update R i v w).0 → Step w w'
    signals : (i : Key R) (v : R.State) → w' ≡ (update_state_and_signal R i v w).0 → Step w w'
    rewrites : (f : R.State → R.State) (a : ℕ) → w' ≡ (rewrite_all f a w).0 → Step w w'
    queues : w'.state_store ≡ w.state_store → Step w w'

  pub data Reach (w : World R) : World R → Type 0 where
    here : Reach w w
    next : {u v : World R} → Reach w u → Step u v → Reach w v

  rewrite_all-IsLinked :
      (f : R.State → R.State) (a : ℕ) (w : World R)
      → IsLinked (id_dec R) w.state_store
      → IsLinked (id_dec R) (rewrite_all f a w).0.state_store
  unfolding with_lock lock
  rewrite_all-IsLinked f a w linked = elim (Option-cases (get_elem? w.state_store.heap a)) [
    | inl e ↦ rw (e, ◌>>=◌) linked
    | inr (n, e) ↦
        let s = w.state_store in
        rw
          (with_lock_lem R w a (λ m. update_all_fn (rewrite_state f) (new_state R) m) e
            (update_all_fn_lem f (new_state R) n))
          (with_cell-IsLinked (id_dec R) s (id n) a n (map_states f n) linked
            (root_at (id_dec R) s a n linked e) e
            (map_states-IsKeyed f (id_dec R) n (cell-IsKeyed (id_dec R) s a n linked e))
            (λ y. has-map_states f (id_dec R) y n))
  ]

  Step-IsLinked :
      (w w' : World R)
      → Step w w'
      → IsLinked (id_dec R) w.state_store
      → IsLinked (id_dec R) w'.state_store
  Step-IsLinked w w' (creates x some_x fresh e) linked =
      rw e (create_tree-Added R w x some_x linked fresh).1.store_linked
  Step-IsLinked w w' (adds i x fresh e) linked = elim (new_child-total R w i linked x fresh) [
    | inl (m, same) ↦ rw (e, same) linked
    | inr (stored, some_x, returned, added, told_of, notes) ↦ rw e added.store_linked
  ]
  Step-IsLinked w w' (updates i v e) linked = elim (update-total R w i linked v) [
    | inl (m, same) ↦ rw (e, same) linked
    | inr (stored, returned, written, told_of, notes) ↦ rw e written.store_linked
  ]
  Step-IsLinked w w' (signals i v e) linked = elim (update_state_and_signal-total R w i linked v) [
    | inl (m, same) ↦ rw (e, same) linked
    | inr (stored, returned, written, told_of, notes) ↦ rw e written.store_linked
  ]
  Step-IsLinked w w' (rewrites f a e) linked = rw e (rewrite_all-IsLinked f a w linked)
  Step-IsLinked w w' (queues e) linked = rw e linked

  -- From a linked store, whatever state machines do, with ids that are stored, missing or nil, and
  -- whether their calls return or panic, the store stays linked, as long as a new state has an id
  -- that is not stored and the id of a new tree is not nil.
  pub Reach-IsLinked :
      {w w' : World R}
      → IsLinked (id_dec R) w.state_store
      → Reach w w'
      → IsLinked (id_dec R) w'.state_store
  Reach-IsLinked linked here = linked
  Reach-IsLinked linked (next {u} {v} r s) = Step-IsLinked u v s (Reach-IsLinked linked r)
