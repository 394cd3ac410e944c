-- ===== src/Ingress/Inbound.antt =====
-- Which packets become signals.
use mathlib.Core.List.{append-nil, append_assoc}
use rex_sm.Base.{
  ◌≡◌, refl, ap, sym, ◌∙◌, inl, inr, ◌⊎◌, true, false, Option, none, some, List, [], ◌∷◌, ◌++◌, ok,
  panic, Bool-cases, Option-cases, map_get, map_insert, collect, in_keys, are_distinct, value_of,
  is_some, collect_lem, Clash, IsFresh, IsFresh-head, IsFresh-insert, Clash-insert, arith,
}
use rex_sm.Kind.{Rex, Key}
use rex_sm.Queue.Deque.{StreamableDeque}
use rex_sm.Queue.Order.{front-push_back, back-push_back}
use rex_sm.Timeout.Manager.{Signal}
use rex_sm.Ingress.Router.{
  Attempt, done, failed, route, push_routed, StateRouter, new_routers, new_router, get_id,
  process_inbound,
}

module _ (R : Rex) where
  unfoldable with_input : Key R → Attempt R.Input → List (Signal (Key R) R.Input)
  with_input i failed = []
  with_input i (done input) = record { id = i; input = input } ∷ []

  unfoldable with_id : Attempt (Option (Key R)) → Attempt R.Input → List (Signal (Key R) R.Input)
  unfolding with_input
  with_id failed input = []
  with_id (done none) input = []
  with_id (done (some i)) input = with_input i input

  push_routed_lem :
      (o : Attempt (Option (Key R))) (input : Attempt R.Input)
      (q : StreamableDeque (Signal (Key R) R.Input))
      → ((push_routed R o input q).front_values ≡ q.front_values)
        × ((push_routed R o input q).back_values ≡ q.back_values ++ with_id o input)
  unfolding with_id with_input
  push_routed_lem failed input q = (refl, sym (append-nil _))
  push_routed_lem (done none) input q = (refl, sym (append-nil _))
  push_routed_lem (done (some i)) failed q = (refl, sym (append-nil _))
  push_routed_lem (done (some i)) (done input) q =
      let signal : Signal (Key R) R.Input = record { id = i; input = input } in
      (front-push_back q signal, back-push_back q signal)

module _ (R : Rex) {In : Type 0} where
  new_routers_ok :
      (m : List (R.Kind × StateRouter R In)) (rs : List (StateRouter R In))
      → IsFresh R.kind_dec (λ r. r.kind) m rs
      → are_distinct R.kind_dec (λ r. r.kind) rs ≡ true
      → new_routers R m rs ≡ ok (collect R.kind_dec (λ r. r.kind) m rs)
  unfolding new_routers collect are_distinct in_keys
  new_routers_ok m [] f d = refl
  new_routers_ok m (r ∷ rs) f d =
      let kind = λ (s : StateRouter R In). s.kind in
      let rest =
        new_routers_ok (map_insert R.kind_dec r.kind r m) rs
          (IsFresh-insert R.kind_dec kind m r rs f d) (ground arith) in
      elim (Option-cases (map_get R.kind_dec m r.kind)) [
        | inl e ↦ rw (new_routers, e) rest
        | inr (old, e) ↦ cc (ap is_some e, IsFresh-head R.kind_dec kind m r rs f)
      ]

  new_routers_panic :
      (m : List (R.Kind × StateRouter R In)) (rs : List (StateRouter R In))
      → Clash R.kind_dec (λ r. r.kind) m rs
      → new_routers R m rs ≡ panic
  unfolding new_routers are_distinct in_keys
  new_routers_panic m [] (inl (k, old, h)) = cc
  new_routers_panic m [] (inr d) = cc
  new_routers_panic m (r ∷ rs) c = elim (Option-cases (map_get R.kind_dec m r.kind)) [
    | inr (old, e) ↦ rw (new_routers, e)
    | inl e ↦
        rw (new_routers, e)
          (new_routers_panic (map_insert R.kind_dec r.kind r m) rs
            (Clash-insert R.kind_dec (λ s. s.kind) m r rs (rw e) c))
  ]

  -- `PacketRouter::new` of routers with distinct kinds returns a table that finds each router under its
  -- kind and no other; where two routers have one kind it panics.
  pub new_router-distinct :
      (rs : List (StateRouter R In))
      → ((are_distinct R.kind_dec (λ r. r.kind) rs ≡ true)
          × ((m : List (R.Kind × StateRouter R In)) × (new_router R rs ≡ ok m)
              × ((k : R.Kind) → map_get R.kind_dec m k ≡ value_of R.kind_dec (λ r. r.kind) k rs)))
        ⊎ ((are_distinct R.kind_dec (λ r. r.kind) rs ≡ false) × (new_router R rs ≡ panic))
  unfolding new_router map_get
  new_router-distinct rs =
      elim (Bool-cases (are_distinct R.kind_dec (λ (r : StateRouter R In). r.kind) rs)) [
        | inl d ↦
            let (size, found) =
              collect_lem R.kind_dec (λ (r : StateRouter R In). r.kind) [] rs (λ k h. refl) d in
            inl (
              d,
              (collect R.kind_dec (λ r. r.kind) [] rs, new_routers_ok [] rs (λ k h. refl) d, found),
            )
        | inr d ↦ inr (d, new_routers_panic [] rs (inr d))
      ]

  module _ (kind_of : In → Attempt R.Kind) (input_of : In → Attempt R.Input)
      (rs : List (StateRouter R In)) where
    unfoldable with_router : Option (StateRouter R In) → In → List (Signal (Key R) R.Input)
    unfolding with_id
    with_router none packet = []
    with_router (some r) packet = with_id R (r.get_id packet) (input_of packet)

    unfoldable with_kind : Attempt R.Kind → In → List (Signal (Key R) R.Input)
    unfolding with_router
    with_kind failed packet = []
    with_kind (done k) packet = with_router (value_of R.kind_dec (λ r. r.kind) k rs) packet

    -- The signals of the packets whose kind is known, that a router of the kind gives an id, and whose
    -- input is known.
    unfoldable pub signals_of : List In → List (Signal (Key R) R.Input)
    unfolding with_kind
    signals_of [] = []
    signals_of (packet ∷ packets) = with_kind (kind_of packet) packet ++ signals_of packets

    module _ (m : List (R.Kind × StateRouter R In))
        (found : (k : R.Kind)
          → map_get R.kind_dec m k ≡ value_of R.kind_dec (λ r. r.kind) k rs) where
      routed :
          (packet : In)
          → with_kind (kind_of packet) packet
            ≡ with_id R (get_id R kind_of m packet) (input_of packet)
      unfolding get_id with_kind with_router with_id
      routed packet = go (kind_of packet)
        where
          go :
              (a : Attempt R.Kind)
              → with_kind a packet
                ≡ with_id R
                    (elim a [
                      | failed ↦ failed
                      | done k ↦ route R kind_of (map_get R.kind_dec m k) packet
                    ])
                    (input_of packet)
          go failed = refl
          go (done k) =
              rw (found k)
                (elim (Option-cases (value_of R.kind_dec (λ (r : StateRouter R In). r.kind) k rs)) [
                  | inl e ↦ rw e
                  | inr (r, e) ↦ rw e
                ])

      process_inbound_lem :
          (packets : List In) (q : StreamableDeque (Signal (Key R) R.Input))
          → ((process_inbound R kind_of input_of m packets q).front_values ≡ q.front_values)
            × ((process_inbound R kind_of input_of m packets q).back_values
                ≡ q.back_values ++ signals_of packets)
      unfolding process_inbound signals_of
      process_inbound_lem [] q = (refl, sym (append-nil _))
      process_inbound_lem (packet ∷ packets) q =
          let q' = push_routed R (get_id R kind_of m packet) (input_of packet) q in
          let (front, back) = push_routed_lem R (get_id R kind_of m packet) (input_of packet) q in
          let (fronts, backs) = process_inbound_lem packets q' in
          (fronts ∙ front, backs ∙ rw (back, routed packet, append_assoc))

    -- With routers of distinct kinds, the signals of the packets are pushed in the order of the
    -- packets, with normal priority; a packet whose kind or input is not known, or that no router
    -- gives an id, is passed over and does not stop the loop.
    pub process_inbound-signals_of :
        (packets : List In) (q : StreamableDeque (Signal (Key R) R.Input))
        → are_distinct R.kind_dec (λ r. r.kind) rs ≡ true
        → (m : List (R.Kind × StateRouter R In)) × (new_router R rs ≡ ok m)
          × (let q' = process_inbound R kind_of input_of m packets q in
              (q'.front_values ≡ q.front_values)
              × (q'.back_values ≡ q.back_values ++ signals_of packets))
    process_inbound-signals_of packets q d = elim (new_router-distinct rs) [
      | inl (d', (m, built, found)) ↦ (m, built, process_inbound_lem m found packets q)
      | inr (d', failure) ↦ cc (sym d ∙ d')
    ]
