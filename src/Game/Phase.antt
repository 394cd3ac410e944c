-- ===== src/Game/Phase.antt =====
-- A game in the store: the states of its menu, ping and pong, and the signals that wait; and what
-- each method that the machines call makes of it.
use mathlib.Core.List.{append-nil}
use rex_sm.Base.{
  ℕ, ◌≡◌, refl, ap, sym, ◌∙◌, inl, inr, Bool, true, false, not, Option, none, some, List, [], ◌∷◌,
  ◌++◌, push, ok, if◌then◌else◌, eqb, eqb_self, eqb_sound, eqb_apart, Bool-cases, Option-cases,
}
use rex_sm.Kind.{Rex, StateId, id_dec, is_nil}
use rex_sm.Queue.Deque.{StreamableDeque}
use rex_sm.Queue.Order.{front-push_back, back-push_back}
use rex_sm.Storage.Linked.{IsLinked, Written, peek_state, peek_parent}
use rex_sm.Timeout.Manager.{Signal}
use rex_sm.Manager.World.{World, get_state, get_parent_id, priority_send}
use rex_sm.Manager.Machine.{update, update_state_and_signal}
use rex_sm.Manager.States.{told, get-peek, update-Written, update_state_and_signal-Written}
use rex_sm.Manager.Takes.{Takes}
use rex_sm.Game.Types.{Game, ping, pong, menu, Game-discrete, GameState, GameInput}
use rex_sm.Game.Machines.{R, push_signal}

module _ (U : Type 0) (uuid_dec : Discrete U) (nil_uuid : U) where
  abbrev G : Rex
  G = R U uuid_dec nil_uuid

  -- the ids of a game
  abbrev pub Ids : Type 0
  Ids = Game → U

  abbrev pub id_at : Ids → Game → StateId Game U
  id_at uuids k = record { kind = k; uuid = uuids k }

  abbrev pub Sig : Type 0
  Sig = Signal (StateId Game U) (GameInput U)

  abbrev pub above : Ids → Game → Option (StateId Game U)
  above uuids menu = none
  above uuids k = some (id_at uuids menu)

  abbrev pub with_state : Game → GameState → (Game → GameState) → Game → GameState
  with_state k v states j = if eqb Game-discrete k j then v else states j

  if-some :
      (b : Bool) (v v' : GameState)
      → (if b then ok (some v) else ok (some v')) ≡ ok (some (if b then v else v'))
  if-some true v v' = refl
  if-some false v v' = refl

  -- what the parent is told of a state
  unfoldable pub news : Ids → Game → GameState → List Sig
  news uuids menu v = []
  news uuids k v = elim (G.state_input menu v) [
    | none ↦ []
    | some input ↦ record { id = id_at uuids menu; input = input } ∷ []
  ]

  told-parent :
      (i : StateId Game U) (v : GameState) (q : StreamableDeque Sig)
      → i.kind ≡ menu
      → let told_of = elim (G.state_input menu v) as (λ _. List Sig) [
        | none ↦ []
        | some input ↦ record { id = i; input = input } ∷ []
      ] in
        ((told G v (ok (some i)) q).front_values ≡ q.front_values)
        × ((told G v (ok (some i)) q).back_values ≡ q.back_values ++ told_of)
  unfolding told
  told-parent i v q e = elim (Option-cases (G.state_input menu v)) [
    | inl none_there ↦ rw (told, e, none_there) (refl, sym (append-nil q.back_values))
    | inr (input, some_there) ↦
        rw (told, e, some_there)
          (
            front-push_back q (record { id = i; input = input }),
            back-push_back q (record { id = i; input = input }),
          )
  ]

  told-news :
      (uuids : Ids) (k : Game) (v : GameState) (q : StreamableDeque Sig)
      → ((told G v (ok (above uuids k)) q).front_values ≡ q.front_values)
        × ((told G v (ok (above uuids k)) q).back_values ≡ q.back_values ++ news uuids k v)
  unfolding news told
  told-news uuids menu v q = (refl, sym (append-nil q.back_values))
  told-news uuids ping v q = told-parent (id_at uuids menu) v q refl
  told-news uuids pong v q = told-parent (id_at uuids menu) v q refl

  module _ (before : World G) (uuids : Ids)
      (some_ids : (k : Game) → is_nil G (id_at uuids k) ≡ false) where
    pub record Phase (states : Game → GameState) (pending : List Sig) (w : World G) : Type 0 where
      pub store_linked : IsLinked (id_dec G) w.state_store
      pub at :
          (k : Game) → peek_state (id_dec G) w.state_store (id_at uuids k) ≡ ok (some (states k))
      pub below :
          (k : Game) → peek_parent (id_dec G) w.state_store (id_at uuids k) ≡ ok (above uuids k)
      pub others :
          (j : StateId Game U)
          → ((k : Game) → eqb (id_dec G) (id_at uuids k) j ≡ false)
          → peek_state (id_dec G) w.state_store j ≡ peek_state (id_dec G) before.state_store j
      pub no_front : w.signal_queue.front_values ≡ []
      pub waiting : w.signal_queue.back_values ≡ pending

    pub eqb-id_at :
        (k j : Game) → eqb (id_dec G) (id_at uuids k) (id_at uuids j) ≡ eqb Game-discrete k j
    eqb-id_at k j = elim (Bool-cases (eqb Game-discrete k j)) [
      | inl e ↦ rw (e, eqb_sound Game-discrete k j e) (eqb_self (id_dec G) (id_at uuids j))
      | inr e ↦ rw e (
          eqb_apart (id_dec G) (id_at uuids k) (id_at uuids j)
            (λ i. not (eqb Game-discrete k i.kind)) (rw e) (rw (eqb_self Game-discrete k)))
    ]

    stored :
        (s : Game → GameState) (q : List Sig) (w : World G) (k : Game)
        → Phase s q w
        → (a : ℕ) × (w.state_store.trees (id_at uuids k) ≡ some a)
    unfolding peek_state
    stored s q w k h = elim (Option-cases (w.state_store.trees (id_at uuids k))) [
      | inr found ↦ found
      | inl e ↦
          let read : ok none ≡ peek_state (id_dec G) w.state_store (id_at uuids k) =
            rw (peek_state, e) in
          cc (read ∙ h.at k)
    ]

    -- a step on the notifications alone
    pub priority_send-Takes :
        {s : Game → GameState} {q : List Sig} (m : G.Message)
        → Takes (Phase s q) (priority_send G m) tt (Phase s q)
    unfolding priority_send
    priority_send-Takes m = record {
      returns = λ w h. refl;
      leads = λ w h. record {
        store_linked = h.store_linked;
        at = h.at;
        below = h.below;
        others = h.others;
        no_front = h.no_front;
        waiting = h.waiting;
      };
    }

    pub push_signal-Takes :
        {s : Game → GameState} {q : List Sig} (i : StateId Game U) (input : GameInput U)
        → Takes
            (Phase s q)
            (push_signal U uuid_dec nil_uuid i input)
            tt
            (Phase s (push q (record { id = i; input = input })))
    unfolding push_signal
    push_signal-Takes i input = record {
      returns = λ w h. refl;
      leads = λ w h. record {
        store_linked = h.store_linked;
        at = h.at;
        below = h.below;
        others = h.others;
        no_front = front-push_back w.signal_queue (record { id = i; input = input }) ∙ h.no_front;
        waiting =
            back-push_back w.signal_queue (record { id = i; input = input })
            ∙ ap (λ q. push q (record { id = i; input = input })) h.waiting;
      };
    }

    pub get_state-Takes :
        {s : Game → GameState} {q : List Sig} (k : Game)
        → Takes (Phase s q) (get_state G (id_at uuids k)) (some (s k)) (Phase s q)
    get_state-Takes {s} {q} k = record {
      returns = λ w h.
          ap (λ r. r.1) (get-peek G w (id_at uuids k) (some_ids k) h.store_linked).0 ∙ h.at k;
      leads = λ w h. rw (get-peek G w (id_at uuids k) (some_ids k) h.store_linked).0 h;
    }

    pub get_parent_id-Takes :
        {s : Game → GameState} {q : List Sig} (k : Game)
        → Takes (Phase s q) (get_parent_id G (id_at uuids k)) (above uuids k) (Phase s q)
    get_parent_id-Takes {s} {q} k = record {
      returns = λ w h.
          ap (λ r. r.1) (get-peek G w (id_at uuids k) (some_ids k) h.store_linked).1 ∙ h.below k;
      leads = λ w h. rw (get-peek G w (id_at uuids k) (some_ids k) h.store_linked).1 h;
    }

    Written-Phase :
        {s : Game → GameState} {q q' : List Sig} (w w' : World G) (k : Game) (v : GameState)
        → Phase s q w
        → Written (id_dec G) (id_at uuids k) v w.state_store w'.state_store
        → w'.signal_queue.front_values ≡ []
        → w'.signal_queue.back_values ≡ q'
        → Phase (with_state k v s) q' w'
    Written-Phase {s} w w' k v h u front back = record {
      store_linked = u.store_linked;
      at = λ j.
          u.states (id_at uuids j)
          ∙ rw (eqb-id_at k j, h.at j) (if-some (eqb Game-discrete k j) v (s j));
      below = λ j. u.parents (id_at uuids j) ∙ h.below j;
      others = λ j apart. u.states j ∙ rw (apart k) (h.others j apart);
      no_front = front;
      waiting = back;
    }

    pub update-Takes :
        {s : Game → GameState} {q : List Sig} (k : Game) (v : GameState)
        → Takes (Phase s q) (update G (id_at uuids k) v) tt (Phase (with_state k v s) q)
    update-Takes {s} {q} k v = record {
      returns = λ w h.
          let (a, e) = stored s q w k h in
          (update-Written G w (id_at uuids k) a (some_ids k) h.store_linked e v).0;
      leads = λ w h.
          let (a, e) = stored s q w k h in
          let (r, u, sg, n) =
            update-Written G w (id_at uuids k) a (some_ids k) h.store_linked e v in
          Written-Phase w (update G (id_at uuids k) v w).0 k v h u
            (ap (λ q. q.front_values) sg ∙ h.no_front) (ap (λ q. q.back_values) sg ∙ h.waiting);
    }

    pub update_state_and_signal-Takes :
        {s : Game → GameState} {q : List Sig} (k : Game) (v : GameState)
        → Takes
            (Phase s q)
            (update_state_and_signal G (id_at uuids k) v)
            (above uuids k)
            (Phase (with_state k v s) (q ++ news uuids k v))
    update_state_and_signal-Takes {s} {q} k v = record {
      returns = λ w h.
          let (a, e) = stored s q w k h in
          (update_state_and_signal-Written G w (id_at uuids k) a (some_ids k) h.store_linked e v).0
          ∙ h.below k;
      leads = λ w h.
          let (a, e) = stored s q w k h in
          let (r, u, sg, n) =
            update_state_and_signal-Written G w (id_at uuids k) a (some_ids k) h.store_linked e v in
          let sg' = sg ∙ ap (λ r. told G v r w.signal_queue) (r ∙ h.below k) in
          let (front, back) = told-news uuids k v w.signal_queue in
          Written-Phase w (update_state_and_signal G (id_at uuids k) v w).0 k v h u
            (ap (λ q. q.front_values) sg' ∙ front ∙ h.no_front)
            (ap (λ q. q.back_values) sg' ∙ back ∙ ap (λ q. q ++ news uuids k v) h.waiting);
    }
