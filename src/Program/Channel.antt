-- ===== src/Program/Channel.antt =====
-- The channel between the notification manager and the timeout manager: the messages that one
-- sender was given, in their order, and what they leave of the deadlines.
use mathlib.Core.List.{append_assoc}
use rex_sm.Base.{
  ℕ, ◌≡◌, refl, ap, ◌∙◌, inl, inr, Bool, true, false, Option, none, some, List, [], ◌∷◌, ◌++◌, map,
  if◌then◌else◌, eqb, contains, Bool-cases, ◌||◌, arith,
}
use rex_sm.Kind.{Rex, Key, id_dec}
use rex_sm.Timeout.Request.{Operation, UnaryRequest, cancel, set, retain}
use rex_sm.Timeout.History.{noted, message, note, notes, Event}
use rex_sm.Notification.Topics.{Processor}
use rex_sm.Notification.Delivery.{sends, sends_all, receivers}

module _ (R : Rex) where
  abbrev pub timeout_input : Key R → ℕ → Option R.Input
  timeout_input i t = R.timeout_input i.kind t

  abbrev pub return_item : Key R → R.Item → Option R.Input
  return_item i item = R.return_item i.kind item

  abbrev pub Deadlines : Type 0
  Deadlines = Key R → Option ℕ

  -- whether a message is a request that is for the id and no `Retain`
  abbrev pub sets_deadline : Key R → Option (UnaryRequest (Key R) R.Item) → Bool
  sets_deadline i none = false
  sets_deadline i (some r) = elim r.op [
    | cancel ↦ eqb (id_dec R) r.id i
    | set instant ↦ eqb (id_dec R) r.id i
    | retain item instant ↦ false
  ]

  abbrev pub any_sets : Key R → List R.Message → Bool
  any_sets i [] = false
  any_sets i (m ∷ ms) = sets_deadline i (R.try_request m) || any_sets i ms

  noted_other :
      (d : Deadlines) (i : Key R) (o : Option (UnaryRequest (Key R) R.Item))
      → sets_deadline i o ≡ false
      → noted (id_dec R) d o i ≡ d i
  noted_other d i none e = refl
  noted_other d i (some r) e = by_op r.op e
    where
      by_op :
          (op : Operation R.Item)
          → sets_deadline i (some (record r { op = op })) ≡ false
          → noted (id_dec R) d (some (record r { op = op })) i ≡ d i
      by_op cancel e = rw e
      by_op (set instant) e = rw e
      by_op (retain item instant) e = refl

module _ (R : Rex) {Tx : Type 0} (tx_dec : Discrete Tx) (tx : Tx) where
  -- what the receiver of `tx` is given
  unfoldable pub delivered : List (Tx × R.Message) → List R.Message
  delivered [] = []
  delivered ((t, m) ∷ l) = if eqb tx_dec t tx then m ∷ delivered l else delivered l

  -- what the timeout manager makes of it
  abbrev pub heard : List R.Message → List (Event (id_dec R) (timeout_input R) (return_item R))
  heard [] = []
  heard (m ∷ ms) = message (R.try_request m) ∷ heard ms

  abbrev pub after : Deadlines R → List (Tx × R.Message) → Deadlines R
  after d l = notes (id_dec R) (timeout_input R) (return_item R) d (heard (delivered l))

  after-append :
      (d : Deadlines R) (l k : List (Tx × R.Message)) → after d (l ++ k) ≡ after (after d l) k
  unfolding delivered notes
  after-append d [] k = refl
  after-append d ((t, m) ∷ l) k = elim (Bool-cases (eqb tx_dec t tx)) [
    | inl e ↦
        rw (e, notes)
          (after-append
            (note (id_dec R) (timeout_input R) (return_item R) d (message (R.try_request m))) l k)
    | inr e ↦ rw e (after-append d l k)
  ]

  -- the copies of one message
  abbrev copies : R.Message → List Tx → List (Tx × R.Message)
  copies m = map (λ t. (t, m))

  after-copies_other :
      (d : Deadlines R) (i : Key R) (m : R.Message) (txs : List Tx)
      → sets_deadline R i (R.try_request m) ≡ false
      → after d (copies m txs) i ≡ d i
  unfolding delivered notes note
  after-copies_other d i m [] e = refl
  after-copies_other d i m (t ∷ txs) e = elim (Bool-cases (eqb tx_dec t tx)) [
    | inl s ↦
        rw (s, notes, note)
          (after-copies_other (noted (id_dec R) d (R.try_request m)) i m txs e
            ∙ noted_other R d i (R.try_request m) e)
    | inr s ↦ rw s (after-copies_other d i m txs e)
  ]

  module _ (i : Key R) (m : R.Message) (o : Option ℕ)
      (always : (d : Deadlines R) → noted (id_dec R) d (R.try_request m) i ≡ o) where
    after-copies_again : (d : Deadlines R) (txs : List Tx) → d i ≡ o → after d (copies m txs) i ≡ o
    unfolding delivered notes note
    after-copies_again d [] e = e
    after-copies_again d (t ∷ txs) e = elim (Bool-cases (eqb tx_dec t tx)) [
      | inl s ↦
          rw (s, notes, note)
            (after-copies_again (noted (id_dec R) d (R.try_request m)) txs (always d))
      | inr s ↦ rw s (after-copies_again d txs e)
    ]

    -- A message that sets or cancels the deadline, given to the receiver once or more often.
    after-copies :
        (d : Deadlines R) (txs : List Tx)
        → contains tx_dec tx txs ≡ true
        → after d (copies m txs) i ≡ o
    unfolding delivered notes note contains
    after-copies d [] h = cc
    after-copies d (t ∷ txs) h = elim (Bool-cases (eqb tx_dec t tx)) [
      | inl s ↦
          rw (s, notes, note)
            (after-copies_again (noted (id_dec R) d (R.try_request m)) txs (always d))
      | inr s ↦ rw s (after-copies d txs (ground (arith, h, s)))
    ]

  module _ (topic_dec : Discrete R.Topic) (ps : List (Processor R.Topic Tx)) where
    abbrev sent : List R.Message → List (Tx × R.Message)
    sent = sends_all topic_dec R.get_topic ps

    sends_all-append : (ns ms : List R.Message) → sent (ns ++ ms) ≡ sent ns ++ sent ms
    unfolding sends_all
    sends_all-append [] ms = refl
    sends_all-append (n ∷ ns) ms = rw (sends_all-append ns ms, append_assoc)

    after_others :
        (d : Deadlines R) (i : Key R) (ns : List R.Message)
        → any_sets R i ns ≡ false
        → after d (sent ns) i ≡ d i
    unfolding sends_all sends notes delivered
    after_others d i [] e = refl
    after_others d i (n ∷ ns) e =
        ap (λ g. g i) (after-append d (copies n (receivers topic_dec (R.get_topic n) ps)) (sent ns))
        ∙ after_others (after d (copies n (receivers topic_dec (R.get_topic n) ps))) i ns
            (ground (arith, e))
        ∙ after-copies_other d i n (receivers topic_dec (R.get_topic n) ps) (ground (arith, e))

    -- What the last message that sets or cancels an id's deadline says, holds after all messages.
    pub after_last :
        (d : Deadlines R) (i : Key R) (m : R.Message) (o : Option ℕ) (before later : List R.Message)
        → ((d' : Deadlines R) → noted (id_dec R) d' (R.try_request m) i ≡ o)
        → contains tx_dec tx (receivers topic_dec (R.get_topic m) ps) ≡ true
        → any_sets R i later ≡ false
        → after d (sent (before ++ (m ∷ later))) i ≡ o
    unfolding sends_all sends
    after_last d i m o before later always listens none_later =
        let txs = receivers topic_dec (R.get_topic m) ps in
        ap (λ l. after d l i) (sends_all-append before (m ∷ later))
        ∙ ap (λ g. g i) (after-append d (sent before) (copies m txs ++ sent later))
        ∙ ap (λ g. g i) (after-append (after d (sent before)) (copies m txs) (sent later))
        ∙ after_others (after (after d (sent before)) (copies m txs)) i later none_later
        ∙ after-copies i m o always (after d (sent before)) txs listens
