-- ===== src/Manager/States.antt =====
-- The methods of a state machine on a linked store: which state they write, what they leave, what
-- they return and whom they signal.
use rex_sm.Base.{
  ℕ, ◌≡◌, refl, ap, inl, inr, false, Option, none, some, Result, ok, Option-cases, get_elem?,
}
use rex_sm.Kind.{Rex, id_dec, is_nil}
use rex_sm.Queue.Deque.{StreamableDeque, push_back}
use rex_sm.Node.Tree.{Node}
use rex_sm.Node.Spec.{parent_in}
use rex_sm.Node.Edit
use rex_sm.Node.Update.{with_state_at, update_lem, update_and_get_parent_id_lem}
use rex_sm.Node.Frame.{with_state_at-Updated}
use rex_sm.Node.Read.{get_parent_id-parent_in}
use rex_sm.Storage.Store
use rex_sm.Storage.Store.{StateStore}
use rex_sm.Storage.Linked.{IsLinked, Written, peek_parent, peek_state, with_cell, with_cell-Written}
use rex_sm.Storage.Grown.{grown}
use rex_sm.Timeout.Manager.{Signal}
use rex_sm.Manager.Action.{◌>>=◌}
use rex_sm.Manager.World.{
  Key, World, new_state, get_tree, lock, with_lock, insert_ref, state_change, signal_state_change,
  get_state, get_parent_id,
}
use rex_sm.Manager.Machine.{update, update_state_and_signal, signal_parent}

module _ (R : Rex) (w : World R) (a : ℕ) where
  pub with_lock_lem :
      {A : Type 0} (f : Node (Key R) R.State → Node (Key R) R.State × Result A)
      {n n' : Node (Key R) R.State} {r : Result A}
      → get_elem? w.state_store.heap a ≡ some n
      → f n ≡ (n', r)
      → with_lock R a f w ≡ (record w { state_store = with_cell (id_dec R) w.state_store a n' }, r)
  unfolding with_lock lock
  with_lock_lem f {n} e g = rw (e, g, ◌>>=◌)

  pub get_tree_lem :
      (i : Key R)
      → is_nil R i ≡ false
      → w.state_store.trees i ≡ some a
      → get_tree R i w ≡ (w, ok (some a))
  unfolding get_tree Store.get_tree
  get_tree_lem i n e = rw (n, e)

  pub insert_ref_lem :
      (x : Key R)
      → is_nil R x ≡ false
      → insert_ref R x a w
        ≡ (record w { state_store = grown (id_dec R) w.state_store x a w.state_store.heap }, ok tt)
  unfolding insert_ref Store.insert_ref
  insert_ref_lem x n = rw (n, insert_ref)

module _ (R : Rex) where
  -- The signal queue once the parent, if there is one and its kind takes the state as an input,
  -- is told of it.
  unfoldable pub told :
      R.State
      → Result (Option (Key R))
      → StreamableDeque (Signal (Key R) R.Input)
      → StreamableDeque (Signal (Key R) R.Input)
  told v (ok (some parent)) q = elim (R.state_input parent.kind v) [
    | none ↦ q
    | some input ↦ push_back q (record { id = parent; input = input })
  ]
  told v r q = q

module _ (R : Rex) (w : World R) (i : Key R) (a : ℕ) (some_id : is_nil R i ≡ false)
    (linked : IsLinked (id_dec R) w.state_store) (at : w.state_store.trees i ≡ some a) where
  -- On a linked store, `update` on an id that is not nil and has a state returns; it writes that
  -- state, and changes no other state, no parent and no queue.
  pub update-Written :
      (v : R.State)
      → let (w', r) = update R i v w in
        (r ≡ ok tt)
        × Written (id_dec R) i v w.state_store w'.state_store
        × (w'.signal_queue ≡ w.signal_queue)
        × (w'.notification_queue ≡ w.notification_queue)
  unfolding update get_tree with_lock Store.get_tree
  update-Written v =
      let h = linked.linked i a at in
      rw (some_id, at, h.cell, update_lem (id_dec R) (new_state R) h.tree i v h.keyed h.holds)
        (
          refl,
          with_cell-Written (id_dec R) w.state_store i a h.tree _ linked at h.cell v
              (with_state_at-Updated (id_dec R) h.tree i v h.keyed h.holds),
          refl,
          refl,
        )

  told-signal_parent :
      (v : R.State) (p : Option (Key R)) (w' : World R)
      → let (w'', r) = signal_parent R v p w' in
        (r ≡ ok p)
        × (w''.signal_queue ≡ told R v (ok p) w'.signal_queue)
        × (w''.notification_queue ≡ w'.notification_queue)
        × (w''.state_store ≡ w'.state_store)
  unfolding signal_parent signal_state_change state_change told
  told-signal_parent v none w' = (refl, refl, refl, refl)
  told-signal_parent v (some p) w' = elim (Option-cases (R.state_input p.kind v)) [
    | inl e ↦ rw (e, told) (refl, refl, refl, refl)
    | inr (input, e) ↦ rw (e, told) (refl, refl, refl, refl)
  ]

  update_state_and_signal_lem :
      (v : R.State)
      → let h = linked.linked i a at in
        update_state_and_signal R i v w
        ≡ signal_parent R v (parent_in (id_dec R) i h.tree) (record w {
          state_store = with_cell (id_dec R) w.state_store a (with_state_at (id_dec R) i v h.tree);
        })
  unfolding update_state_and_signal get_tree Store.get_tree
  update_state_and_signal_lem v =
      let h = linked.linked i a at in
      let locked =
        with_lock_lem R w a
          (λ n.
            Edit.update_and_get_parent_id (id_dec R) (new_state R) n (record { id = i; state = v }))
          h.cell
          (update_and_get_parent_id_lem (id_dec R) (new_state R) h.tree i v h.keyed h.holds) in
      rw (some_id, at, ◌>>=◌, locked)
        (ap (λ u. signal_parent R v (parent_in (id_dec R) i h.tree) u.0) locked)

  peek_parent_lem :
      let h = linked.linked i a at in
      peek_parent (id_dec R) w.state_store i ≡ ok (parent_in (id_dec R) i h.tree)
  unfolding peek_parent
  peek_parent_lem =
      let h = linked.linked i a at in
      rw (at, h.cell) (get_parent_id-parent_in (id_dec R) i h.tree h.keyed)

  -- On a linked store, `update_state_and_signal` on an id that is not nil and has a state returns
  -- its parent; it writes the state, tells the parent by a signal with normal priority if there is
  -- a parent and its kind has an input for the state, and changes nothing else.
  pub update_state_and_signal-Written :
      (v : R.State)
      → let (w', r) = update_state_and_signal R i v w in
        (r ≡ peek_parent (id_dec R) w.state_store i)
        × Written (id_dec R) i v w.state_store w'.state_store
        × (w'.signal_queue ≡ told R v r w.signal_queue)
        × (w'.notification_queue ≡ w.notification_queue)
  update_state_and_signal-Written v =
      let h = linked.linked i a at in
      let p = parent_in (id_dec R) i h.tree in
      let (returned, signals, notes, store) = told-signal_parent v p (record w {
        state_store = with_cell (id_dec R) w.state_store a (with_state_at (id_dec R) i v h.tree);
      }) in
      rw (update_state_and_signal_lem v, peek_parent_lem, store, returned, signals, notes)
        (
          refl,
          with_cell-Written (id_dec R) w.state_store i a h.tree _ linked at h.cell v
              (with_state_at-Updated (id_dec R) h.tree i v h.keyed h.holds),
          refl,
          refl,
        )

module _ (R : Rex) (w : World R) (i : Key R) (some_id : is_nil R i ≡ false)
    (linked : IsLinked (id_dec R) w.state_store) where
  -- On a linked store, `SmContext::get_state` and `get_parent_id` of an id that is not nil read its
  -- state and its parent, if it has them, and change nothing.
  pub get-peek :
      (get_state R i w ≡ (w, peek_state (id_dec R) w.state_store i))
      × (get_parent_id R i w ≡ (w, peek_parent (id_dec R) w.state_store i))
  unfolding get_state get_parent_id get_tree lock Store.get_tree peek_state peek_parent
  get-peek = elim (Option-cases (w.state_store.trees i)) [
    | inl e ↦ rw (some_id, e) (refl, refl)
    | inr (a, e) ↦ let h = linked.linked i a e in rw (some_id, e, h.cell) (refl, refl)
  ]
