-- ===== src/Manager/Created.antt =====
-- `new_child` and `create_tree` on a linked store: they add an id and change nothing else.
use rex_sm.Base.{
  ℕ, ◌≡◌, refl, sym, ◌∙◌, inl, inr, false, Option, none, some, ok, Bool-cases, set, push, length,
  eqb, if◌then◌else◌,
}
use rex_sm.Kind.{Rex, id_dec, is_nil}
use rex_sm.Node.Tree.{Node}
use rex_sm.Node.Tree
use rex_sm.Node.Spec.{has}
use rex_sm.Node.Edit
use rex_sm.Node.Insert.{with_leaf, insert_lem}
use rex_sm.Node.LeafReads.{with_leaf-Inserted}
use rex_sm.Storage.Store
use rex_sm.Storage.Store.{StateStore}
use rex_sm.Storage.Linked.{IsLinked}
use rex_sm.Storage.Grown.{Added, grown, alloc-Added, leaf-Added}
use rex_sm.Manager.Action.{◌>>=◌, ◌>>◌, >>=-ok, unwrap}
use rex_sm.Manager.World.{Key, World, new_state, get_tree, with_lock, insert_ref}
use rex_sm.Manager.Machine.{new_child, create_tree}
use rex_sm.Manager.States.{with_lock_lem, get_tree_lem, insert_ref_lem}

module _ (R : Rex) (w : World R) (i : Key R) (a : ℕ) (some_id : is_nil R i ≡ false)
    (linked : IsLinked (id_dec R) w.state_store) (at : w.state_store.trees i ≡ some a) where
  new_child_lem :
      (x : Key R)
      → is_nil R x ≡ false
      → let h = linked.linked i a at in
        new_child R i x w ≡ (
          record w {
            state_store =
                grown
                  (id_dec R)
                  w.state_store
                  x
                  a
                  (set w.state_store.heap a (with_leaf (id_dec R) (new_state R) i x h.tree));
          },
          ok tt,
        )
  unfolding new_child
  new_child_lem x some_x =
      let h = linked.linked i a at in
      let f = λ (n : Node (Key R) R.State).
        Edit.insert (id_dec R) (new_state R) n (record { parent_id = some i; id = x }) in
      >>=-ok (get_tree R i)
        (λ (t : Option ℕ). unwrap t >>= λ b. insert_ref R x b >> with_lock R b f)
        (get_tree_lem R w a i some_id at)
      ∙ >>=-ok (insert_ref R x a) (λ (_ : Unit {0}). with_lock R a f)
          (insert_ref_lem R w a x some_x)
      ∙ with_lock_lem R
          (record w { state_store = grown (id_dec R) w.state_store x a w.state_store.heap }) a f
          h.cell (insert_lem (id_dec R) (new_state R) i x h.tree h.keyed h.holds)

  pub new_child-trees :
      (x : Key R)
      → is_nil R x ≡ false
      → (j : Key R)
      → (new_child R i x w).0.state_store.trees j
        ≡ (if eqb (id_dec R) x j then some a else w.state_store.trees j)
  new_child-trees x some_x j = rw (new_child_lem x some_x)

  -- On a linked store, `new_child` of a parent in the store with a fresh child id, neither id nil,
  -- returns; the child is added below its parent in the new state of its kind, and no other state
  -- or parent and no queue is changed.
  pub new_child-Added :
      (x : Key R)
      → is_nil R x ≡ false
      → w.state_store.trees x ≡ none
      → let (w', r) = new_child R i x w in
        (r ≡ ok tt)
        × Added (id_dec R) x (some i) (new_state R x) w.state_store w'.state_store
        × (w'.signal_queue ≡ w.signal_queue)
        × (w'.notification_queue ≡ w.notification_queue)
  new_child-Added x some_x fresh =
      let h = linked.linked i a at in
      let absent : has (id_dec R) x h.tree ≡ false = elim (Bool-cases (has (id_dec R) x h.tree)) [
        | inr e ↦ e
        | inl e ↦ cc (sym fresh ∙ linked.indexed a h.tree x h.cell e)
      ] in
      rw (new_child_lem x some_x) (
        refl,
        leaf-Added (id_dec R) (new_state R) w.state_store x linked fresh i a h.tree _ h.cell
            (with_leaf-Inserted (id_dec R) (new_state R) i x h.tree h.keyed absent h.holds),
        refl,
        refl,
      )

module _ (R : Rex) (w : World R) (x : Key R) (some_x : is_nil R x ≡ false)
    (linked : IsLinked (id_dec R) w.state_store) (fresh : w.state_store.trees x ≡ none) where
  create_tree_lem : create_tree R x w ≡ (
    record w {
      state_store =
          grown
            (id_dec R)
            w.state_store
            x
            (length w.state_store.heap)
            (push w.state_store.heap (Tree.new (new_state R) x));
    },
    ok tt,
  )
  unfolding create_tree Store.alloc
  create_tree_lem =
      insert_ref_lem R
        (record w { state_store = (Store.alloc w.state_store (Tree.new (new_state R) x)).0 })
        (length w.state_store.heap) x some_x

  pub create_tree-trees :
      (j : Key R)
      → (create_tree R x w).0.state_store.trees j
        ≡ (if eqb (id_dec R) x j then some (length w.state_store.heap) else w.state_store.trees j)
  create_tree-trees j = rw create_tree_lem

  -- On a linked store, `create_tree` with a fresh id that is not nil returns; the id is added with
  -- no parent, in the new state of its kind, and no other state or parent and no queue is changed.
  pub create_tree-Added :
      let (w', r) = create_tree R x w in
      (r ≡ ok tt)
      × Added (id_dec R) x none (new_state R x) w.state_store w'.state_store
      × (w'.signal_queue ≡ w.signal_queue)
      × (w'.notification_queue ≡ w.notification_queue)
  create_tree-Added =
      rw create_tree_lem
        (refl, alloc-Added (id_dec R) (new_state R) w.state_store x linked fresh, refl, refl)
