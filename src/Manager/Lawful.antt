-- ===== src/Manager/Lawful.antt =====
-- Programs of the context's methods: what they reach, and so what the signal loop reaches.
use rex_sm.Base.{
  ℕ, zero, suc, ◌≡◌, refl, inl, inr, Bool, true, false, Option, none, some, List, [], ◌∷◌, Result,
  ok, panic, spent, map_get, Option-cases, if◌then◌else◌,
}
use rex_sm.Kind.{Rex, id_dec}
use rex_sm.Queue.Deque.{pop_front}
use rex_sm.Node.Tree.{Node}
use rex_sm.Node.Tree
use rex_sm.Storage.Linked.{IsLinked}
use rex_sm.Manager.Action.{Action, ◌>>=◌, ◌>>◌, lift, return, modify}
use rex_sm.Manager.World.{Key, World, get_tree, lock, get_state, get_parent_id}
use rex_sm.Manager.Machine.{update, update_state_and_signal}
use rex_sm.Manager.Dispatch.{
  StateMachine, Machines, Turn, idle, handled, unknown, died, process_turn, turn, turns,
}
use rex_sm.Manager.Reach.{
  Reach, here, next, updates, signals, queues, rewrites, rewrite_all, Reach-IsLinked,
}

module _ (R : Rex) where
  pub Reach-trans : {u v w : World R} → Reach R u v → Reach R v w → Reach R u w
  Reach-trans r here = r
  Reach-trans r (next s st) = next (Reach-trans r s) st

  -- From any world, and whether it returns or panics, it ends in a world that steps lead to, in
  -- which the ids of new states are fresh.
  pub record IsLawful {A : Type 0} (m : Action (World R) A) : Type 0 where
    pub reaches : (w : World R) → Reach R w (m w).0

  pub >>=-IsLawful :
      {A B : Type 0} (m : Action (World R) A) (f : A → Action (World R) B)
      → IsLawful m
      → ((a : A) → IsLawful (f a))
      → IsLawful (m >>= f)
  >>=-IsLawful {A = A} {B = B} m f hm hf = record { reaches = λ w. go w (m w).1 }
    where
      go :
          (w : World R) (r : Result A)
          → Reach R w
              (elim r as (λ _. World R × Result B) [
                | ok a ↦ f a (m w).0
                | panic ↦ ((m w).0, panic)
                | spent ↦ ((m w).0, spent)
              ]).0
      go w (ok a) = Reach-trans (hm.reaches w) ((hf a).reaches (m w).0)
      go w panic = hm.reaches w
      go w spent = hm.reaches w

  pub >>-IsLawful :
      {B : Type 0} (m : Action (World R) (Unit {0})) (n : Action (World R) B)
      → IsLawful m
      → IsLawful n
      → IsLawful (m >> n)
  >>-IsLawful m n hm hn = >>=-IsLawful m (λ (_ : Unit {0}). n) hm (λ (_ : Unit {0}). hn)

  pub if-IsLawful :
      {A : Type 0} (m n : Action (World R) A) (b : Bool)
      → IsLawful m
      → IsLawful n
      → IsLawful (if b then m else n)
  if-IsLawful m n true hm hn = hm
  if-IsLawful m n false hm hn = hn

  pub lift-IsLawful : {A : Type 0} (r : Result A) → IsLawful (lift r)
  lift-IsLawful r = record { reaches = λ w. here }

  pub get_tree-IsLawful : (i : Key R) → IsLawful (get_tree R i)
  unfolding get_tree
  get_tree-IsLawful i = record { reaches = λ w. here }

  pub lock-IsLawful : (a : ℕ) → IsLawful (lock R a)
  unfolding lock
  lock-IsLawful a = record { reaches = λ w. here }

  -- what is read of the tree that an id is in
  at_tree-IsLawful :
      {A : Type 0} (missing : A) (f : Node (Key R) R.State → Result A) (o : Option ℕ)
      → IsLawful (elim o as (λ _. Action (World R) A) [
        | none ↦ return missing
        | some a ↦ lock R a >>= λ n. lift (f n)
      ])
  at_tree-IsLawful missing f none = lift-IsLawful (ok missing)
  at_tree-IsLawful missing f (some a) =
      >>=-IsLawful (lock R a) (λ n. lift (f n)) (lock-IsLawful a) λ n. lift-IsLawful (f n)

  pub get_state-IsLawful : (i : Key R) → IsLawful (get_state R i)
  unfolding get_state
  get_state-IsLawful i =
      >>=-IsLawful (get_tree R i) _ (get_tree-IsLawful i)
        (at_tree-IsLawful none (λ n. Tree.get_state (id_dec R) n i))

  pub get_parent_id-IsLawful : (i : Key R) → IsLawful (get_parent_id R i)
  unfolding get_parent_id
  get_parent_id-IsLawful i =
      >>=-IsLawful (get_tree R i) _ (get_tree-IsLawful i)
        (at_tree-IsLawful none (λ n. Tree.get_parent_id (id_dec R) n i))

  pub update-IsLawful : (i : Key R) (v : R.State) → IsLawful (update R i v)
  update-IsLawful i v = record { reaches = λ w. next here (updates i v refl) }

  pub update_state_and_signal-IsLawful :
      (i : Key R) (v : R.State) → IsLawful (update_state_and_signal R i v)
  update_state_and_signal-IsLawful i v = record { reaches = λ w. next here (signals i v refl) }

  pub rewrite_all-IsLawful : (f : R.State → R.State) (a : ℕ) → IsLawful (rewrite_all R f a)
  rewrite_all-IsLawful f a = record { reaches = λ w. next here (rewrites f a refl) }

  -- a step on the queues alone
  pub modify-IsLawful :
      (f : World R → World R)
      → ((w : World R) → (f w).state_store ≡ w.state_store)
      → IsLawful (modify f)
  modify-IsLawful f same = record { reaches = λ w. next here (queues (same w)) }

  module _ (machines : Machines R)
      (lawful : (k : R.Kind) (sm : StateMachine R)
        → map_get R.kind_dec machines k ≡ some sm
        → (i : Key R) (input : R.Input) → IsLawful (sm.process i input)) where
    process_turn-world : (r : World R × Result (Unit {0})) → (process_turn R r).0 ≡ r.0
    process_turn-world (w, ok u) = refl
    process_turn-world (w, panic) = refl
    process_turn-world (w, spent) = refl

    turn-Reach : (w : World R) → Reach R w (turn R machines w).0
    unfolding turn
    turn-Reach w =
        let w' : World R = record w { signal_queue = (pop_front w.signal_queue).0 } in
        let popped : Reach R w w' = next here (queues refl) in
        elim (Option-cases (pop_front w.signal_queue).1) [
          | inl e ↦ rw (turn, e) popped
          | inr (s, e) ↦ elim (Option-cases (map_get R.kind_dec machines s.id.kind)) [
            | inl missing ↦ rw (turn, e, missing) popped
            | inr (sm, found) ↦
                rw (turn, e, found, process_turn-world (sm.process s.id s.input w'))
                  (Reach-trans popped ((lawful s.id.kind sm found s.id s.input).reaches w'))
          ]
        ]

    -- the turns after one that ended so
    after-Reach :
        {w w' : World R} (rest : World R × List Turn)
        → Reach R w w'
        → Reach R w' rest.0
        → (t : Turn)
        → Reach R w
            (elim t as (λ _. World R × List Turn) [
              | idle ↦ (w', idle ∷ [])
              | handled ↦ (rest.0, handled ∷ rest.1)
              | unknown ↦ (rest.0, unknown ∷ rest.1)
              | died ↦ (w', died ∷ [])
            ]).0
    after-Reach rest r later idle = r
    after-Reach rest r later handled = Reach-trans r later
    after-Reach rest r later unknown = Reach-trans r later
    after-Reach rest r later died = r

    turns-Reach : (n : ℕ) (w : World R) → Reach R w (turns R n machines w).0
    unfolding turns
    turns-Reach zero w = here
    turns-Reach (suc n) w =
        let (w', t) = turn R machines w in
        after-Reach (turns R n machines w') (turn-Reach w) (turns-Reach n w') t

    -- The condition is on the machines of the table: on any id, input and world, each does no more
    -- than write states, change queues, `create_tree` with an id that is neither nil nor stored, and
    -- `new_child` with a new id that is not stored. Then any number of turns of the signal loop from a
    -- linked store leaves a linked store, whatever signals are waiting and whether or not a machine
    -- panics.
    pub turns-IsLinked :
        (n : ℕ) (w : World R)
        → IsLinked (id_dec R) w.state_store
        → IsLinked (id_dec R) (turns R n machines w).0.state_store
    turns-IsLinked n w linked = Reach-IsLinked R linked (turns-Reach n w)
