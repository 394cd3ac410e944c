-- ===== src/Ingress/Router.antt =====
-- src/ingress.rs: `StateRouter`, `PacketRouter` and the loops of `IngressAdapter`. The conversions of
-- a packet (`TryFrom`) are parameters; of an error only that it is one is kept.
use rex_sm.Base.{Option, none, some, List, [], ◌∷◌, Result, ok, panic, map_get, map_insert}
use rex_sm.Kind.{Rex, Key}
use rex_sm.Queue.Deque.{StreamableDeque, push_back}
use rex_sm.Timeout.Manager.{Signal}

-- `Result<A, Report<_>>`
pub data Attempt (A : Type 0) : Type 0 where
  done : A → Attempt A
  failed : Attempt A

-- `BoxedStateRouter`: a user of the library writes `get_id`.
pub record StateRouter (R : Rex) (In : Type 0) : Type 0 where
  pub kind : R.Kind
  pub get_id : In → Attempt (Option (Key R))

module _ (R : Rex) where
  abbrev push_signal :
      Key R
      → Attempt R.Input
      → StreamableDeque (Signal (Key R) R.Input)
      → StreamableDeque (Signal (Key R) R.Input)
  push_signal i failed q = q
  push_signal i (done input) q = push_back q (record { id = i; input = input })

  -- what the loop of `process_inbound` does with an answer of the router and a conversion
  abbrev pub push_routed :
      Attempt (Option (Key R))
      → Attempt R.Input
      → StreamableDeque (Signal (Key R) R.Input)
      → StreamableDeque (Signal (Key R) R.Input)
  push_routed failed input q = q
  push_routed (done none) input q = q
  push_routed (done (some i)) input q = push_signal i input q

module _ (R : Rex) {In : Type 0} where
  -- the loop of `PacketRouter::new`
  unfoldable pub new_routers :
      List (R.Kind × StateRouter R In)
      → List (StateRouter R In)
      → Result (List (R.Kind × StateRouter R In))
  new_routers m [] = ok m
  new_routers m (router ∷ routers) = elim (map_get R.kind_dec m router.kind) [
    | some old_router ↦ panic
    | none ↦ new_routers (map_insert R.kind_dec router.kind router m) routers
  ]

  -- `PacketRouter::new`
  unfoldable pub new_router : List (StateRouter R In) → Result (List (R.Kind × StateRouter R In))
  unfolding new_routers
  new_router routers = new_routers [] routers

  module _ (kind_of : In → Attempt R.Kind) where
    abbrev pub route : Option (StateRouter R In) → In → Attempt (Option (Key R))
    route none packet = done none
    route (some router) packet = router.get_id packet

    -- `PacketRouter::get_id`
    unfoldable pub get_id : List (R.Kind × StateRouter R In) → In → Attempt (Option (Key R))
    get_id m packet = elim (kind_of packet) [
      | failed ↦ failed
      | done kind ↦ route (map_get R.kind_dec m kind) packet
    ]

    module _ (input_of : In → Attempt R.Input) where
      -- `process_inbound`, on the packets of the channel up to its end
      unfoldable pub process_inbound :
          List (R.Kind × StateRouter R In)
          → List In
          → StreamableDeque (Signal (Key R) R.Input)
          → StreamableDeque (Signal (Key R) R.Input)
      unfolding get_id
      process_inbound m [] q = q
      process_inbound m (packet ∷ packets) q =
          process_inbound m packets (push_routed R (get_id m packet) (input_of packet) q)

-- The loop that `IngressAdapter::init` spawns: what is sent to `outbound_tx`.
unfoldable pub process_outbound : {M Out : Type 0} → (M → Attempt Out) → List M → List Out
process_outbound packet_of [] = []
process_outbound packet_of (n ∷ ns) =
    let rest = process_outbound packet_of ns in
    elim (packet_of n) [ failed ↦ rest | done packet ↦ packet ∷ rest ]
