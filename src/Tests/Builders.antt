-- ===== src/Tests/Builders.antt =====
-- Witnesses for the builder.
use rex_sm.Base.{
  ℕ, ◌≡◌, refl, true, none, some, List, [], ◌∷◌, push, ok, panic, are_distinct, ℕ_discrete,
}
use rex_sm.Manager.Dispatch.{new_manager}
use rex_sm.Ingress.Router.{done, StateRouter, new_router}
use rex_sm.Builder.Config.{
  BuilderContext, custom, ingress_adapter, Channel, RexBuilder, new, new_connected,
  with_ingress_adapter, ingress_tx, build_inner,
}
use rex_sm.Builder.Steps.{
  Step, sm, np, timeouts, rate, configure, machines_of, processors_of, topic_of, rate_of, spawned,
  build_inner-configure, with_ingress_adapter-once,
}
use rex_sm.Tests.Worlds.{numbers, root_id, machine}

abbrev queues : BuilderContext
queues = record { signal_queue = 0; notification_queue = 1 }

abbrev calls : List (Step numbers ℕ)
calls =
    rate 3 ∷ timeouts 1 ∷ sm (machine 5) ∷ np (custom (1 ∷ 2 ∷ [])) ∷ sm (machine 6) ∷ rate 4 ∷ []

build_inner-configure_example : build_inner (configure (new numbers ℕ queues) calls) ≡ (
  spawned (processors_of queues calls) (topic_of none calls) (rate_of none calls) 0,
  new_manager numbers (machines_of calls),
)
build_inner-configure_example = build_inner-configure queues calls

abbrev channel : Channel
channel = record { tx = 7; rx = 8 }

abbrev builder : RexBuilder numbers ℕ
builder = (new_connected numbers ℕ queues 9 channel).1

abbrev routers : List (StateRouter numbers ℕ)
routers = record { kind = 5; get_id = λ packet. done (some root_id) } ∷ []

routers_distinct : are_distinct ℕ_discrete (λ r. r.kind) routers ≡ true
unfolding are_distinct
routers_distinct = refl

connected : builder.ingress_channel ≡ some channel
unfolding new_connected
connected = refl

has_outbound : builder.outbound_tx ≡ some 9
unfolding new_connected
has_outbound = refl

with_ingress_adapter-once_example :
    (b' : RexBuilder numbers ℕ) × (with_ingress_adapter builder routers 1 ≡ ok b')
    × (m : List (ℕ × StateRouter numbers ℕ)) × (new_router numbers routers ≡ ok m)
    × (b'.notification_processors
        ≡ push builder.notification_processors (ingress_adapter 1 m channel 9 builder.signal_queue))
    × (with_ingress_adapter b' routers 2 ≡ panic)
    × (ingress_tx b' ≡ panic)
with_ingress_adapter-once_example =
    with_ingress_adapter-once builder channel 9 routers routers 1 2 connected has_outbound refl
      routers_distinct
