-- ===== src/Timeout/Request.antt =====
-- src/timeout.rs and src/notification.rs: `Operation`, `UnaryRequest` and how they are made. An
-- `Instant` and a `Duration` are numbers on one scale; `now` is what `Instant::now()` returns.
-- Where the sum is later than a clock can hold the source panics; here the numbers have no largest.
use rex_sm.Base.{ℕ, ◌+◌}

pub data Operation {ℓ} (T : Type ℓ) : Type ℓ where
  cancel : Operation T
  set : ℕ → Operation T
  retain : T → ℕ → Operation T

pub record UnaryRequest {ℓ} (Key T : Type ℓ) : Type ℓ where
  pub id : Key
  pub op : Operation T

module _ {ℓ} {T : Type ℓ} where
  unfoldable pub from_duration : ℕ → ℕ → Operation T
  from_duration now duration = set (now + duration)

  -- a number of milliseconds on the scale of the instants
  unfoldable pub from_millis : ℕ → ℕ → Operation T
  from_millis now millis = set (now + millis)

module _ {ℓ} {Key T : Type ℓ} where
  unfoldable pub set_timeout_millis : ℕ → Key → ℕ → UnaryRequest Key T
  unfolding from_millis
  set_timeout_millis now i millis = record { id = i; op = from_millis now millis }

  unfoldable pub set_timeout : ℕ → Key → ℕ → UnaryRequest Key T
  unfolding from_duration
  set_timeout now i duration = record { id = i; op = from_duration now duration }

  unfoldable pub cancel_timeout : Key → UnaryRequest Key T
  cancel_timeout i = record { id = i; op = cancel }

  unfoldable pub retain_item : ℕ → Key → T → ℕ → UnaryRequest Key T
  retain_item now i item duration = record { id = i; op = retain item (now + duration) }
