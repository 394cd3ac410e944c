-- ===== src/Manager/Total.antt =====
-- The methods that write a state, on any id at all: they write it, or panic and change nothing.
use rex_sm.Base.{
  ℕ, ◌≡◌, ◌∙◌, inl, inr, ◌⊎◌, true, false, Option, none, some, ok, panic, Bool-cases, Option-cases,
}
use rex_sm.Kind.{Rex, id_dec, is_nil}
use rex_sm.Node.Tree.{Node}
use rex_sm.Node.Edit
use rex_sm.Storage.Store
use rex_sm.Storage.Linked.{IsLinked, Written, peek_parent}
use rex_sm.Storage.Grown.{Added}
use rex_sm.Manager.Action.{◌>>=◌, ◌>>◌, >>=-ok, >>=-panic, unwrap}
use rex_sm.Manager.World.{Key, World, new_state, get_tree, insert_ref, with_lock}
use rex_sm.Manager.Machine.{update, update_state_and_signal, new_child}
use rex_sm.Manager.States.{told, get_tree_lem, update-Written, update_state_and_signal-Written}
use rex_sm.Manager.Created.{new_child-Added}

module _ (R : Rex) (w : World R) (i : Key R) where
  -- where no tree is found for the id
  abbrev pub IsMissing : Type 0
  IsMissing = (is_nil R i ≡ true) ⊎ (w.state_store.trees i ≡ none)

  -- where one is, and the id may be used
  abbrev pub IsStored : Type 0
  IsStored = (is_nil R i ≡ false) × (a : ℕ) × (w.state_store.trees i ≡ some a)

  pub missing_or_stored : IsMissing ⊎ IsStored
  missing_or_stored = elim (Bool-cases (is_nil R i)) [
    | inl e ↦ inl (inl e)
    | inr e ↦ elim (Option-cases (w.state_store.trees i)) [
      | inl none_there ↦ inl (inr none_there)
      | inr (a, at) ↦ inr (e, a, at)
    ]
  ]

  update_missing : (v : R.State) → IsMissing → update R i v w ≡ (w, panic)
  unfolding update get_tree Store.get_tree
  update_missing v (inl e) = rw e
  update_missing v (inr e) = elim (Bool-cases (is_nil R i)) [ inl d ↦ rw d | inr d ↦ rw (d, e) ]

  signal_missing : (v : R.State) → IsMissing → update_state_and_signal R i v w ≡ (w, panic)
  unfolding update_state_and_signal get_tree Store.get_tree
  signal_missing v (inl e) = rw e
  signal_missing v (inr e) = elim (Bool-cases (is_nil R i)) [ inl d ↦ rw d | inr d ↦ rw (d, e) ]

  child_missing : (x : Key R) → IsMissing → new_child R i x w ≡ (w, panic)
  unfolding new_child get_tree Store.get_tree
  child_missing x (inl e) = rw e
  child_missing x (inr e) = elim (Bool-cases (is_nil R i)) [ inl d ↦ rw d | inr d ↦ rw (d, e) ]

  insert_nil : (x : Key R) (a : ℕ) → is_nil R x ≡ true → insert_ref R x a w ≡ (w, panic)
  unfolding insert_ref Store.insert_ref
  insert_nil x a e = rw (e, insert_ref)

  child_nil : (x : Key R) → IsStored → is_nil R x ≡ true → new_child R i x w ≡ (w, panic)
  unfolding new_child
  child_nil x (some_i, a, at) e =
      let f = λ (n : Node (Key R) R.State).
        Edit.insert (id_dec R) (new_state R) n (record { parent_id = some i; id = x }) in
      >>=-ok (get_tree R i)
        (λ (t : Option ℕ). unwrap t >>= λ b. insert_ref R x b >> with_lock R b f)
        (get_tree_lem R w a i some_i at)
      ∙ >>=-panic (insert_ref R x a) (λ (_ : Unit {0}). with_lock R a f) (insert_nil x a e)

  module _ (linked : IsLinked (id_dec R) w.state_store) where
    -- On a linked store `update` of an id that is nil or has no tree panics with nothing changed; of
    -- any other it writes the state and changes no other, no parent and no queue.
    pub update-total :
        (v : R.State)
        → (IsMissing × (update R i v w ≡ (w, panic)))
          ⊎ (let (w', r) = update R i v w in
              IsStored
              × (r ≡ ok tt)
              × Written (id_dec R) i v w.state_store w'.state_store
              × (w'.signal_queue ≡ w.signal_queue)
              × (w'.notification_queue ≡ w.notification_queue))
    update-total v = elim missing_or_stored [
      | inl m ↦ inl (m, update_missing v m)
      | inr (some_i, a, at) ↦
          let (returns, written, told_of, notes) = update-Written R w i a some_i linked at v in
          inr ((some_i, a, at), returns, written, told_of, notes)
    ]

    -- On a linked store `update_state_and_signal`, and so `fail` and `complete`, panics with nothing
    -- changed where the id is nil or has no tree; of any other it writes the state and tells the
    -- parent.
    pub update_state_and_signal-total :
        (v : R.State)
        → (IsMissing × (update_state_and_signal R i v w ≡ (w, panic)))
          ⊎ (let (w', r) = update_state_and_signal R i v w in
              IsStored
              × (r ≡ peek_parent (id_dec R) w.state_store i)
              × Written (id_dec R) i v w.state_store w'.state_store
              × (w'.signal_queue ≡ told R v r w.signal_queue)
              × (w'.notification_queue ≡ w.notification_queue))
    update_state_and_signal-total v = elim missing_or_stored [
      | inl m ↦ inl (m, signal_missing v m)
      | inr (some_i, a, at) ↦
          let (returns, written, told_of, notes) =
            update_state_and_signal-Written R w i a some_i linked at v in
          inr ((some_i, a, at), returns, written, told_of, notes)
    ]

    -- On a linked store `new_child` with an id that has no tree panics with nothing changed where one
    -- of the two ids is nil or the parent has no tree; otherwise it adds the child in its new state,
    -- and changes no other state or parent and no queue.
    pub new_child-total :
        (x : Key R)
        → w.state_store.trees x ≡ none
        → ((IsMissing ⊎ (is_nil R x ≡ true)) × (new_child R i x w ≡ (w, panic)))
          ⊎ (let (w', r) = new_child R i x w in
              IsStored
              × (is_nil R x ≡ false)
              × (r ≡ ok tt)
              × Added (id_dec R) x (some i) (new_state R x) w.state_store w'.state_store
              × (w'.signal_queue ≡ w.signal_queue)
              × (w'.notification_queue ≡ w.notification_queue))
    new_child-total x fresh = elim missing_or_stored [
      | inl m ↦ inl (inl m, child_missing x m)
      | inr (some_i, a, at) ↦ elim (Bool-cases (is_nil R x)) [
        | inl e ↦ inl (inr e, child_nil x (some_i, a, at) e)
        | inr e ↦
            let (returns, added, told_of, notes) =
              new_child-Added R w i a some_i linked at x e fresh in
            inr ((some_i, a, at), e, returns, added, told_of, notes)
      ]
    ]
