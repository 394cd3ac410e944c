-- ===== src/Builder/Steps.antt =====
-- The builder over any sequence of its calls, against what the calls ask for.
use mathlib.Core.List.{append-nil, append_assoc}
use rex_sm.Base.{
  ℕ, ◌≡◌, refl, ap, sym, ◌∙◌, inl, inr, true, false, Option, none, some, List, [], ◌∷◌, ◌++◌, push,
  ok, panic, are_distinct,
}
use rex_sm.Kind.{Rex}
use rex_sm.Manager.Dispatch.{StateMachine, new_manager}
use rex_sm.Ingress.Router.{StateRouter, new_router}
use rex_sm.Ingress.Inbound.{new_router-distinct}
use rex_sm.Builder.Config.{
  BuilderContext, BoxedProcessor, timeout_manager, ingress_adapter, Channel, RexBuilder, is_empty,
  ingress_tx, new, ctx, with_sm, with_np, with_ctx_np, with_timeout_manager, with_tick_rate,
  with_ingress_adapter, timeout_processor, build_timeout_manager, loop_over, build_inner,
}

pub data Step (R : Rex) (In : Type 0) : Type 0 where
  sm : StateMachine R → Step R In
  np : BoxedProcessor R In → Step R In
  ctx_np : (BuilderContext → BoxedProcessor R In) → Step R In
  timeouts : R.Topic → Step R In
  rate : ℕ → Step R In

module _ {R : Rex} {In : Type 0} where
  pub apply_step : RexBuilder R In → Step R In → RexBuilder R In
  apply_step b (sm machine) = with_sm b machine
  apply_step b (np processor) = with_np b processor
  apply_step b (ctx_np op) = with_ctx_np b op
  apply_step b (timeouts topic) = with_timeout_manager b topic
  apply_step b (rate tick_rate) = with_tick_rate b tick_rate

  pub configure : RexBuilder R In → List (Step R In) → RexBuilder R In
  configure b [] = b
  configure b (s ∷ ss) = configure (apply_step b s) ss

  -- what the calls ask for, one question at a time
  pub machines_of : List (Step R In) → List (StateMachine R)
  machines_of [] = []
  machines_of (sm machine ∷ ss) = machine ∷ machines_of ss
  machines_of (_ ∷ ss) = machines_of ss

  pub processors_of : BuilderContext → List (Step R In) → List (BoxedProcessor R In)
  processors_of c [] = []
  processors_of c (np processor ∷ ss) = processor ∷ processors_of c ss
  processors_of c (ctx_np op ∷ ss) = op c ∷ processors_of c ss
  processors_of c (_ ∷ ss) = processors_of c ss

  -- the last of the calls, or what was there
  pub topic_of : Option R.Topic → List (Step R In) → Option R.Topic
  topic_of o [] = o
  topic_of o (timeouts topic ∷ ss) = topic_of (some topic) ss
  topic_of o (_ ∷ ss) = topic_of o ss

  pub rate_of : Option ℕ → List (Step R In) → Option ℕ
  rate_of o [] = o
  rate_of o (rate tick_rate ∷ ss) = rate_of (some tick_rate) ss
  rate_of o (_ ∷ ss) = rate_of o ss

  -- What the notification loop is spawned on, if it is: the processors that were given and a timeout
  -- manager, where there is a topic for it, with the tick rate or one of 5 ms.
  abbrev pub spawned :
      List (BoxedProcessor R In)
      → Option R.Topic
      → Option ℕ
      → ℕ
      → Option (List (BoxedProcessor R In))
  spawned [] none tick_rate q = none
  spawned (p ∷ ps) none tick_rate q = some (p ∷ ps)
  spawned ps (some topic) none q = some (push ps (timeout_manager topic 5 q))
  spawned ps (some topic) (some tick_rate) q = some (push ps (timeout_manager topic tick_rate q))

  loop_over-push :
      (ps : List (BoxedProcessor R In)) (p : BoxedProcessor R In)
      → loop_over (ps ++ (p ∷ [])) ≡ some (push ps p)
  loop_over-push [] p = refl
  loop_over-push (x ∷ ps) p = ap some (ap (◌∷◌ x) (go ps))
    where
      go : (qs : List (BoxedProcessor R In)) → qs ++ (p ∷ []) ≡ push qs p
      go [] = refl
      go (y ∷ qs) = ap (◌∷◌ y) (go qs)

  spawned_lem :
      (ps : List (BoxedProcessor R In)) (topic : Option R.Topic) (tick_rate : Option ℕ) (q : ℕ)
      → loop_over (ps ++ timeout_processor topic tick_rate q) ≡ spawned ps topic tick_rate q
  spawned_lem [] none o q = refl
  spawned_lem (p ∷ ps) none o q = rw (append-nil ps)
  spawned_lem ps (some topic) none q = loop_over-push ps (timeout_manager topic 5 q)
  spawned_lem ps (some topic) (some r) q = loop_over-push ps (timeout_manager topic r q)

  configure_lem :
      (b : RexBuilder R In) (ss : List (Step R In))
      → configure b ss ≡ record b {
        state_machines = b.state_machines ++ machines_of ss;
        notification_processors = b.notification_processors ++ processors_of (ctx b) ss;
        timeout_topic = topic_of b.timeout_topic ss;
        tick_rate = rate_of b.tick_rate ss;
      }
  unfolding configure apply_step machines_of processors_of topic_of rate_of ctx with_sm with_np
      with_ctx_np with_timeout_manager with_tick_rate
  configure_lem b [] = rw (append-nil b.state_machines, append-nil b.notification_processors)
  configure_lem b (sm machine ∷ ss) = rw (configure_lem (with_sm b machine) ss, append_assoc)
  configure_lem b (np processor ∷ ss) = rw (configure_lem (with_np b processor) ss, append_assoc)
  configure_lem b (ctx_np op ∷ ss) = rw (configure_lem (with_ctx_np b op) ss, append_assoc)
  configure_lem b (timeouts topic ∷ ss) = configure_lem (with_timeout_manager b topic) ss
  configure_lem b (rate tick_rate ∷ ss) = configure_lem (with_tick_rate b tick_rate) ss

  -- However the calls of a builder are ordered, it spawns the notification loop on the processors that
  -- were given and then, if a topic for timeouts was, a timeout manager with the last topic and the
  -- last tick rate, or one of 5 ms where none was given; with no processors there is no such loop. Then it makes the
  -- table of the machines that were given, in their order.
  pub build_inner-configure :
      (c : BuilderContext) (ss : List (Step R In))
      → build_inner (configure (new R In c) ss) ≡ (
        spawned (processors_of c ss) (topic_of none ss) (rate_of none ss) c.signal_queue,
        new_manager R (machines_of ss),
      )
  unfolding build_inner build_timeout_manager new ctx
  build_inner-configure c ss = rw (
    configure_lem (new R In c) ss,
    spawned_lem (processors_of c ss) (topic_of none ss) (rate_of none ss) c.signal_queue,
  )

  -- A connected builder takes an ingress adapter for routers of distinct kinds, if there are any: it
  -- becomes the last processor, with the channel of the builder; a second adapter, or asking for the
  -- sender of the channel from then on, panics.
  pub with_ingress_adapter-once :
      (b : RexBuilder R In) (channel : Channel) (outbound_tx : ℕ)
      (routers others : List (StateRouter R In)) (topic other : R.Topic)
      → b.ingress_channel ≡ some channel
      → b.outbound_tx ≡ some outbound_tx
      → is_empty routers ≡ false
      → are_distinct R.kind_dec (λ r. r.kind) routers ≡ true
      → (b' : RexBuilder R In) × (with_ingress_adapter b routers topic ≡ ok b')
        × (m : List (R.Kind × StateRouter R In)) × (new_router R routers ≡ ok m)
        × (b'.notification_processors
            ≡ push b.notification_processors
                (ingress_adapter topic m channel outbound_tx b.signal_queue))
        × (with_ingress_adapter b' others other ≡ panic)
        × (ingress_tx b' ≡ panic)
  unfolding with_ingress_adapter with_np ingress_tx
  with_ingress_adapter-once b channel outbound_tx routers others topic other connected out given d =
      elim (new_router-distinct R routers) [
        | inr (d', failure) ↦ cc (sym d ∙ d')
        | inl (d', (m, built, found)) ↦ (
          with_np (record b { ingress_channel = none })
              (ingress_adapter topic m channel outbound_tx b.signal_queue),
          rw (given, connected, out, built),
          m,
          built,
          refl,
          refused m others,
          refl,
        )
      ]
    where
      refused :
          (m : List (R.Kind × StateRouter R In)) (rs : List (StateRouter R In))
          → with_ingress_adapter
              (with_np
                (record b { ingress_channel = none })
                (ingress_adapter topic m channel outbound_tx b.signal_queue))
              rs
              other
            ≡ panic
      refused m [] = refl
      refused m (r ∷ rs) = refl
