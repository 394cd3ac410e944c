-- ===== src/Storage/Store.antt =====
-- src/storage.rs: `StateStore`. An `Arc<FairMutex<Node>>` is its address in `heap`, so ids that
-- share a tree share its cell; `trees` is the `DashMap`. A lock is held for one operation on a tree.
use rex_sm.Base.{
  ℕ, Bool, Option, none, some, List, [], Result, ok, ◌>>◌, if◌then◌else◌, eqb, not, push, length,
  assert,
}
use rex_sm.Node.Tree.{Node, id}

pub record StateStore {ℓ} (Key S : Type ℓ) : Type ℓ where
  pub trees : Key → Option ℕ
  pub heap : List (Node Key S)

module _ {ℓ} {Key S : Type ℓ} where
  unfoldable pub empty : StateStore Key S
  empty = record { trees = λ _. none; heap = [] }

  -- `Arc::new(FairMutex::new(node))`
  unfoldable pub alloc : StateStore Key S → Node Key S → StateStore Key S × ℕ
  alloc s n = (record s { heap = push s.heap n }, length s.heap)

  module _ (is_nil : Key → Bool) where
    unfoldable pub new_tree : StateStore Key S → Node Key S → Result (StateStore Key S × ℕ)
    new_tree s n = do assert (not (is_nil (id n))); ok (alloc s n)

    unfoldable pub get_tree : StateStore Key S → Key → Result (Option ℕ)
    get_tree s i = do assert (not (is_nil i)); ok (s.trees i)

    module _ (dec : Discrete Key) where
      unfoldable pub insert_ref : StateStore Key S → Key → ℕ → Result (StateStore Key S)
      insert_ref s i a = do
        assert (not (is_nil i))
        ok (record s { trees = λ j. if eqb dec i j then some a else s.trees j })

      unfoldable pub remove_ref : StateStore Key S → Key → Result (StateStore Key S)
      remove_ref s i = do
        assert (not (is_nil i))
        ok (record s { trees = λ j. if eqb dec i j then none else s.trees j })
