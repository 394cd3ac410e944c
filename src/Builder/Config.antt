-- ===== src/Builder/Config.antt =====
-- src/builder.rs: `RexBuilder`. The queues are addresses, as are the ends of a channel; a boxed
-- processor is one of the library's two, or one of a user, of which only the topics are known.
use rex_sm.Base.{
  ℕ, Bool, true, false, not, Option, none, some, List, [], ◌∷◌, ◌++◌, if◌then◌else◌, push, Result,
  ok, ◌>>=◌, ◌>>◌, assert, unwrap,
}
use rex_sm.Kind.{Rex}
use rex_sm.Manager.Dispatch.{StateMachine, Machines, new_manager}
use rex_sm.Ingress.Router.{StateRouter, new_router}

abbrev pub default_tick_rate : ℕ
default_tick_rate = 5

-- `(UnboundedSender, UnboundedReceiver)`
pub record Channel : Type 0 where
  pub tx : ℕ
  pub rx : ℕ

pub record BuilderContext : Type 0 where
  pub signal_queue : ℕ
  pub notification_queue : ℕ

pub data BoxedProcessor (R : Rex) (In : Type 0) : Type 0 where
  -- `topic tick_rate signal_queue`
  timeout_manager : R.Topic → ℕ → ℕ → BoxedProcessor R In
  -- `topic router inbound outbound_tx signal_queue`
  ingress_adapter :
      R.Topic → List (R.Kind × StateRouter R In) → Channel → ℕ → ℕ → BoxedProcessor R In
  custom : List R.Topic → BoxedProcessor R In

pub record RexBuilder (R : Rex) (In : Type 0) : Type 0 where
  pub signal_queue : ℕ
  pub notification_queue : ℕ
  pub state_machines : List (StateMachine R)
  pub notification_processors : List (BoxedProcessor R In)
  pub timeout_topic : Option R.Topic
  pub tick_rate : Option ℕ
  pub outbound_tx : Option ℕ
  pub ingress_channel : Option Channel

-- `TimeoutManager::get_topics`, `IngressAdapter::get_topics`
unfoldable pub get_topics : {R : Rex} {In : Type 0} → BoxedProcessor R In → List R.Topic
get_topics (timeout_manager topic rate q) = topic ∷ []
get_topics (ingress_adapter topic router inbound outbound q) = topic ∷ []
get_topics (custom topics) = topics

abbrev pub or_default : Option ℕ → ℕ
or_default none = default_tick_rate
or_default (some rate) = rate

abbrev pub is_empty : {A : Type 0} → List A → Bool
is_empty [] = true
is_empty (x ∷ xs) = false

-- `Default::default`, with the addresses of the two queues
unfoldable pub new : (R : Rex) (In : Type 0) → BuilderContext → RexBuilder R In
new R In c = record {
  signal_queue = c.signal_queue;
  notification_queue = c.notification_queue;
  state_machines = [];
  notification_processors = [];
  timeout_topic = none;
  tick_rate = none;
  outbound_tx = none;
  ingress_channel = none;
}

-- `new_connected`, with the new channel
unfoldable pub new_connected :
    (R : Rex) (In : Type 0) → BuilderContext → ℕ → Channel → ℕ × RexBuilder R In
unfolding new
new_connected R In c outbound_tx channel = (
  channel.tx,
  record (new R In c) { outbound_tx = some outbound_tx; ingress_channel = some channel },
)

module _ {R : Rex} {In : Type 0} where
  unfoldable pub ctx : RexBuilder R In → BuilderContext
  ctx b = record { signal_queue = b.signal_queue; notification_queue = b.notification_queue }

  unfoldable pub with_sm : RexBuilder R In → StateMachine R → RexBuilder R In
  with_sm b sm = record b { state_machines = push b.state_machines sm }

  -- `with_np`, `push_np` and `with_boxed_np`
  unfoldable pub with_np : RexBuilder R In → BoxedProcessor R In → RexBuilder R In
  with_np b np = record b { notification_processors = push b.notification_processors np }

  -- `with_ctx_np` and `push_ctx_np`
  unfoldable pub with_ctx_np :
      RexBuilder R In → (BuilderContext → BoxedProcessor R In) → RexBuilder R In
  unfolding with_np ctx
  with_ctx_np b op = with_np b (op (ctx b))

  unfoldable pub with_timeout_manager : RexBuilder R In → R.Topic → RexBuilder R In
  with_timeout_manager b topic = record b { timeout_topic = some topic }

  unfoldable pub with_tick_rate : RexBuilder R In → ℕ → RexBuilder R In
  with_tick_rate b rate = record b { tick_rate = some rate }

  unfoldable pub ingress_tx : RexBuilder R In → Result ℕ
  ingress_tx b = do channel ← unwrap b.ingress_channel; ok channel.tx

  unfoldable pub with_ingress_adapter :
      RexBuilder R In → List (StateRouter R In) → R.Topic → Result (RexBuilder R In)
  unfolding with_np
  with_ingress_adapter b state_routers ingress_topic = do
    assert (not (is_empty state_routers))
    channel ← unwrap b.ingress_channel
    outbound_tx ← unwrap b.outbound_tx
    router ← new_router R state_routers
    ok (
        with_np (record b { ingress_channel = none })
          (ingress_adapter ingress_topic router channel outbound_tx b.signal_queue))

  abbrev pub timeout_processor : Option R.Topic → Option ℕ → ℕ → List (BoxedProcessor R In)
  timeout_processor none rate q = []
  timeout_processor (some topic) rate q = timeout_manager topic (or_default rate) q ∷ []

  unfoldable pub build_timeout_manager : RexBuilder R In → RexBuilder R In
  build_timeout_manager b = record b {
    notification_processors =
        b.notification_processors ++ timeout_processor b.timeout_topic b.tick_rate b.signal_queue;
  }

  abbrev pub loop_over : List (BoxedProcessor R In) → Option (List (BoxedProcessor R In))
  loop_over nps = if is_empty nps then none else some nps

  -- `build_inner`, which `build` and `build_with_handle` call: the processors of the notification
  -- loop, if one is spawned, and then the table of the signal loop, or a panic.
  unfoldable pub build_inner :
      RexBuilder R In → Option (List (BoxedProcessor R In)) × Result (Machines R)
  unfolding build_timeout_manager
  build_inner b =
      (loop_over (build_timeout_manager b).notification_processors, new_manager R b.state_machines)
