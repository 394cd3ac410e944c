-- ===== src/Game/Failure.antt =====
-- A failure of a child: every state of the game's tree fails, and every timeout is cancelled.
use mathlib.Core.List.{append-nil, append_assoc}
use rex_sm.Base.{
  ℕ, ◌≡◌, refl, ap, sym, ◌∙◌, inl, inr, ◌⊎◌, Bool, true, false, Option, some, List, [], ◌∷◌, ◌++◌,
  map, Result, ok, if◌then◌else◌, eqb_self, get_elem?, ◌||◌, contains, contains-append, arith,
}
use rex_sm.Kind.{Rex, StateId, id_dec, is_nil, is_terminal}
use rex_sm.Queue.Deque.{push_front}
use rex_sm.Queue.Order.{front-push_front, back-push_front}
use rex_sm.Node.Tree.{Node, node, Nodes, nil, cons}
use rex_sm.Node.Spec.{has, has_any}
use rex_sm.Node.Edit.{update_all_fn}
use rex_sm.Node.Visit.{rewrite_state, map_states, update_all_fn_lem}
use rex_sm.Storage.Linked.{IsLinked, peek_state, with_cell}
use rex_sm.Storage.Rewritten.{Rewritten, is_at, has-is_at, with_cell-Rewritten}
use rex_sm.Timeout.Request.{UnaryRequest, cancel_timeout}
use rex_sm.Manager.Action.{Action, ◌>>=◌, ◌>>◌, >>=-ok, unwrap, return}
use rex_sm.Manager.World.{World, get_tree, get_state, lock, with_lock, priority_send}
use rex_sm.Manager.World
use rex_sm.Manager.Machine
use rex_sm.Manager.States.{get-peek, get_tree_lem, with_lock_lem}
use rex_sm.Game.Types.{
  Game, GameState, pong_state, ping_state, menu_state, MenuInput, failed_ping, failed_pong,
  menu_input, Packet, MenuState, PingState, PongState, failed_state, completed_state, as_ref,
}
use rex_sm.Game.Machines.{
  R, visited, visited_all, cancel_all, fail_all, failed_of, menu_step, menu_process, ends,
}

module _ (U : Type 0) (uuid_dec : Discrete U) (nil_uuid : U) where
  abbrev G : Rex
  G = R U uuid_dec nil_uuid

  or_true : (b c : Bool) → c ≡ true → (b || c) ≡ true
  or_true b c e = ground arith

  -- What fails is terminal.
  pub failed-is_terminal : (s : GameState) → is_terminal G (failed_state (as_ref s)) ≡ true
  unfolding is_terminal failed_state as_ref completed_state
  failed-is_terminal (ping_state s) =
      or_true _ _ (eqb_self G.state_dec (ping_state PingState.failed))
  failed-is_terminal (pong_state s) =
      or_true _ _ (eqb_self G.state_dec (pong_state PongState.failed))
  failed-is_terminal (menu_state s) =
      or_true _ _ (eqb_self G.state_dec (menu_state MenuState.failed))

  mutual
    unfolding visited has contains

    contains-visited :
        (j : StateId Game U) (n : Node (StateId Game U) GameState)
        → contains (id_dec G) j (visited U uuid_dec nil_uuid n) ≡ has (id_dec G) j n
    contains-visited j (node i s ks cs) = ground (
      arith,
      contains-append (id_dec G) j (visited_all U uuid_dec nil_uuid cs) (i ∷ []),
      contains-visited_all j cs,
    )

    contains-visited_all :
        (j : StateId Game U) (ns : Nodes (StateId Game U) GameState)
        → contains (id_dec G) j (visited_all U uuid_dec nil_uuid ns) ≡ has_any (id_dec G) j ns
    contains-visited_all j nil = refl
    contains-visited_all j (cons n ns) =
        contains-append (id_dec G) j (visited U uuid_dec nil_uuid n)
          (visited_all U uuid_dec nil_uuid ns)
        ∙ rw (contains-visited j n, contains-visited_all j ns)

  abbrev pub cancels : List (StateId Game U) → List (UnaryRequest (StateId Game U) (Packet U))
  cancels = map (λ i. cancel_timeout i)

  abbrev cancelled : (is : List (StateId Game U)) (w : World G) → World G
  cancelled is w = (cancel_all U uuid_dec nil_uuid is w).0

  cancel_all_lem :
      (is : List (StateId Game U)) (w : World G)
      → ((cancel_all U uuid_dec nil_uuid is w).1 ≡ ok tt)
        × ((cancelled is w).state_store ≡ w.state_store)
        × ((cancelled is w).signal_queue ≡ w.signal_queue)
        × ((cancelled is w).notification_queue.front_values
            ≡ w.notification_queue.front_values ++ cancels is)
        × ((cancelled is w).notification_queue.back_values ≡ w.notification_queue.back_values)
  unfolding cancel_all Machine.cancel_timeout priority_send
  cancel_all_lem [] w = (refl, refl, refl, sym (append-nil _), refl)
  cancel_all_lem (i ∷ is) w =
      let m : UnaryRequest (StateId Game U) (Packet U) = cancel_timeout i in
      let (r, st, sg, fr, bk) =
        cancel_all_lem is (record w { notification_queue = push_front w.notification_queue m }) in
      (
        r,
        st,
        sg,
        fr ∙ rw (front-push_front w.notification_queue m, append_assoc),
        bk ∙ back-push_front w.notification_queue m,
      )

  -- What a failure of a child does: every state of the tree in the cell is failed, and each of the
  -- tree's ids has its timeout cancelled, in the order in which they are visited.
  pub record Failed (a : ℕ) (n : Node (StateId Game U) GameState) (w w' : World G) : Type 0 where
    pub rewritten :
        Rewritten (id_dec G) (failed_of U uuid_dec nil_uuid) a w.state_store w'.state_store
    pub all_end :
        (j : StateId Game U) (t : GameState)
        → is_at a (w.state_store.trees j) ≡ true
        → peek_state (id_dec G) w.state_store j ≡ ok (some t)
        → (peek_state (id_dec G) w'.state_store j ≡ ok (some (failed_state (as_ref t))))
          × (is_terminal G (failed_state (as_ref t)) ≡ true)
    pub each_cancelled :
        (j : StateId Game U)
        → contains (id_dec G) j (visited U uuid_dec nil_uuid n) ≡ is_at a (w.state_store.trees j)
    pub same_signals : w'.signal_queue ≡ w.signal_queue
    pub notes :
        w'.notification_queue.front_values
        ≡ w.notification_queue.front_values ++ cancels (visited U uuid_dec nil_uuid n)
    pub back_notes : w'.notification_queue.back_values ≡ w.notification_queue.back_values

  module _ (w : World G) (i : StateId Game U) (a : ℕ) (n : Node (StateId Game U) GameState)
      (some_id : is_nil G i ≡ false) (linked : IsLinked (id_dec G) w.state_store)
      (at : w.state_store.trees i ≡ some a) (cell : get_elem? w.state_store.heap a ≡ some n) where
    abbrev fail_states :
        Node (StateId Game U) GameState → Node (StateId Game U) GameState × Result (Unit {0})
    fail_states m =
        update_all_fn (rewrite_state (failed_of U uuid_dec nil_uuid)) (World.new_state G) m

    abbrev rewrote : World G
    rewrote = record w {
      state_store =
          with_cell (id_dec G) w.state_store a (map_states (failed_of U uuid_dec nil_uuid) n);
    }

    fail_all_lem :
        fail_all U uuid_dec nil_uuid i w
        ≡ cancel_all U uuid_dec nil_uuid (visited U uuid_dec nil_uuid n) rewrote
    unfolding fail_all lock
    fail_all_lem =
        let cancel_them = λ (m : Node (StateId Game U) GameState).
          cancel_all U uuid_dec nil_uuid (visited U uuid_dec nil_uuid m) in
        >>=-ok (get_tree G i)
          (λ (t : Option ℕ).
            unwrap t >>= λ b. lock G b >>= λ m. with_lock G b fail_states >> cancel_them m)
          (get_tree_lem G w a i some_id at)
        ∙ >>=-ok (lock G a) (λ m. with_lock G a fail_states >> cancel_them m) {w = w} {w' = w}
            {a = n} (rw (lock, cell))
        ∙ >>=-ok (with_lock G a fail_states) (λ (_ : Unit {0}). cancel_them n)
            (with_lock_lem G w a fail_states cell
              (update_all_fn_lem (failed_of U uuid_dec nil_uuid) (World.new_state G) n))

    each_visited :
        (j : StateId Game U)
        → contains (id_dec G) j (visited U uuid_dec nil_uuid n) ≡ is_at a (w.state_store.trees j)
    each_visited j = contains-visited j n ∙ has-is_at (id_dec G) w.state_store a n linked cell j

    fail_all-Failed :
        let (w', r) = fail_all U uuid_dec nil_uuid i w in (r ≡ ok tt) × Failed a n w w'
    fail_all-Failed =
        let (r, st, sg, fr, bk) = cancel_all_lem (visited U uuid_dec nil_uuid n) rewrote in
        let with_states : Rewritten (id_dec G) (failed_of U uuid_dec nil_uuid) a w.state_store
            (cancelled (visited U uuid_dec nil_uuid n) rewrote).state_store =
          rw st (
            with_cell-Rewritten (id_dec G) (failed_of U uuid_dec nil_uuid) (World.new_state G)
              w.state_store a n linked cell) in
        rw fail_all_lem (
          r,
          record {
            rewritten = with_states;
            all_end =
                λ j t here t_at. (with_states.states j ∙ rw (here, t_at), failed-is_terminal t);
            each_cancelled = each_visited;
            same_signals = sg;
            notes = fr;
            back_notes = bk;
          },
        )

    menu_from : MenuInput → U → U → Option GameState → Action (World G) (Unit {0})
    menu_from input ping_uuid pong_uuid state =
        if ends U uuid_dec nil_uuid state
        then return tt
        else menu_step U uuid_dec nil_uuid ping_uuid pong_uuid i input

    menu_step_lem :
        (ping_uuid pong_uuid : U) (input : MenuInput)
        → (input ≡ failed_ping) ⊎ (input ≡ failed_pong)
        → menu_step U uuid_dec nil_uuid ping_uuid pong_uuid i input w
          ≡ fail_all U uuid_dec nil_uuid i w
    unfolding menu_step
    menu_step_lem ping_uuid pong_uuid input (inl e) =
        ap (λ t. menu_step U uuid_dec nil_uuid ping_uuid pong_uuid i t w) e
    menu_step_lem ping_uuid pong_uuid input (inr e) =
        ap (λ t. menu_step U uuid_dec nil_uuid ping_uuid pong_uuid i t w) e

    menu_process_lem :
        (ping_uuid pong_uuid : U) (input : MenuInput) (s : GameState)
        → (input ≡ failed_ping) ⊎ (input ≡ failed_pong)
        → peek_state (id_dec G) w.state_store i ≡ ok (some s)
        → is_terminal G s ≡ false
        → menu_process U uuid_dec nil_uuid ping_uuid pong_uuid i (menu_input input) w
          ≡ fail_all U uuid_dec nil_uuid i w
    unfolding menu_process menu_from
    menu_process_lem ping_uuid pong_uuid input s which state goes_on =
        >>=-ok (get_state G i) (menu_from input ping_uuid pong_uuid)
          ((get-peek G w i some_id linked).0 ∙ ap (λ r. (w, r)) state)
        ∙ rw goes_on (menu_step_lem ping_uuid pong_uuid input which)

    -- On a linked store, a menu whose state is not terminal takes the signal that one of its
    -- children failed: it returns, every state of its tree is the failed state of its kind, no
    -- other state and no parent changes, each id of the tree has its timeout cancelled, and nobody
    -- is signalled.
    pub menu_process-Failed :
        (ping_uuid pong_uuid : U) (input : MenuInput) (s : GameState)
        → (input ≡ failed_ping) ⊎ (input ≡ failed_pong)
        → peek_state (id_dec G) w.state_store i ≡ ok (some s)
        → is_terminal G s ≡ false
        → let (w', r) =
            menu_process U uuid_dec nil_uuid ping_uuid pong_uuid i (menu_input input) w in
          (r ≡ ok tt) × Failed a n w w'
    menu_process-Failed ping_uuid pong_uuid input s which state goes_on =
        rw (menu_process_lem ping_uuid pong_uuid input s which state goes_on) fail_all-Failed
