-- ===== src/Kind.antt =====
-- src/lib.rs: `StateId`, and the traits `State`, `Kind` and `Rex` (with `RexMessage` of
-- src/notification.rs and `TimeoutMessage` and `Timeout` of src/timeout.rs) as one interface that a
-- user of the library fills. `Uuid` is a type of another package: a parameter with its equality.
use rex_sm.Base.{ℕ, Bool, ◌||◌, Option, eqb}
use rex_sm.Timeout.Request.{UnaryRequest}

pub record StateId (K U : Type 0) : Type 0 where
  pub kind : K
  pub uuid : U

pub record Rex : Type 1 where
  pub Kind : Type 0
  pub Uuid : Type 0
  pub State : Type 0
  pub Input : Type 0
  pub Message : Type 0
  pub Topic : Type 0
  pub Item : Type 0
  pub kind_dec : Discrete Kind
  pub uuid_dec : Discrete Uuid
  pub state_dec : Discrete State
  pub topic_dec : Discrete Topic
  pub nil_uuid : Uuid
  pub new_state : Kind → State
  pub failed_state : Kind → State
  pub completed_state : Kind → State
  pub as_ref : State → Kind
  pub state_input : Kind → State → Option Input
  pub timeout_input : Kind → ℕ → Option Input
  pub return_item : Kind → Item → Option Input
  pub get_topic : Message → Topic
  pub from_request : UnaryRequest (StateId Kind Uuid) Item → Message
  pub try_request : Message → Option (UnaryRequest (StateId Kind Uuid) Item)

module _ (R : Rex) where
  abbrev pub Key : Type 0
  Key = StateId R.Kind R.Uuid

  unfoldable pub id_dec : Discrete (StateId R.Kind R.Uuid)
  id_dec = hlevel (R.kind_dec, R.uuid_dec)

  unfoldable pub nil : R.Kind → StateId R.Kind R.Uuid
  nil kind = record { kind = kind; uuid = R.nil_uuid }

  unfoldable pub is_nil : StateId R.Kind R.Uuid → Bool
  is_nil i = eqb R.uuid_dec i.uuid R.nil_uuid

  -- `Kind::is_terminal`
  unfoldable pub is_terminal : R.State → Bool
  is_terminal state =
      let kind = R.as_ref state in
      eqb R.state_dec (R.completed_state kind) state || eqb R.state_dec (R.failed_state kind) state
