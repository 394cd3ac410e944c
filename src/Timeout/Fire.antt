-- ===== src/Timeout/Fire.antt =====
-- The two loops of a tick: what they push, and which ids they forget.
use mathlib.Core.List.{append-nil, append_assoc}
use rex_sm.Base.{
  ℕ, ◌≡◌, refl, ap, sym, ◌∙◌, Option, none, some, List, [], ◌∷◌, ◌++◌, if◌then◌else◌, contains,
  arith, tree_before,
}
use rex_sm.Queue.Deque.{StreamableDeque}
use rex_sm.Queue.Order.{front-push_front, back-push_front}
use rex_sm.Timeout.Ledger.{Ledger, with_key}
use rex_sm.Timeout.Manager.{Signal, values, fire, fire_timers, fire_items, tick}

module _ {ℓ} {Key Input : Type ℓ} where
  -- The signal of an id, if its kind supports it.
  abbrev pub signal_of : Key → Option Input → List (Signal Key Input)
  signal_of i none = []
  signal_of i (some input) = record { id = i; input = input } ∷ []

  abbrev pub signals : (Key → Option Input) → List Key → List (Signal Key Input)
  signals f [] = []
  signals f (i ∷ is) = signal_of i (f i) ++ signals f is

  fire_front :
      (q : StreamableDeque (Signal Key Input)) (i : Key) (o : Option Input)
      → (fire q i o).front_values ≡ q.front_values ++ signal_of i o
  unfolding fire
  fire_front q i none = sym (append-nil _)
  fire_front q i (some x) = front-push_front q _

  fire_back :
      (q : StreamableDeque (Signal Key Input)) (i : Key) (o : Option Input)
      → (fire q i o).back_values ≡ q.back_values
  unfolding fire
  fire_back q i none = refl
  fire_back q i (some x) = back-push_front q _

  module _ (dec : Discrete Key) (f : Key → Option Input) where
    pub fire_timers_front :
        (is : List Key) (ids : Key → Option ℕ) (q : StreamableDeque (Signal Key Input))
        → (fire_timers dec f is (ids, q)).1.front_values ≡ q.front_values ++ signals f is
    unfolding fire_timers
    fire_timers_front [] ids q = sym (append-nil _)
    fire_timers_front (i ∷ is) ids q =
        fire_timers_front is (with_key dec i none ids) (fire q i (f i))
        ∙ rw (fire_front q i (f i), append_assoc)

    pub fire_timers_back :
        (is : List Key) (ids : Key → Option ℕ) (q : StreamableDeque (Signal Key Input))
        → (fire_timers dec f is (ids, q)).1.back_values ≡ q.back_values
    unfolding fire_timers
    fire_timers_back [] ids q = refl
    fire_timers_back (i ∷ is) ids q =
        fire_timers_back is (with_key dec i none ids) (fire q i (f i)) ∙ fire_back q i (f i)

    pub fire_timers_ids :
        (is : List Key) (ids : Key → Option ℕ) (q : StreamableDeque (Signal Key Input)) (z : Key)
        → (fire_timers dec f is (ids, q)).0 z ≡ (if contains dec z is then none else ids z)
    unfolding fire_timers contains with_key
    fire_timers_ids [] ids q z = refl
    fire_timers_ids (i ∷ is) ids q z =
        fire_timers_ids is (with_key dec i none ids) (fire q i (f i)) z ∙ ground arith

module _ {ℓ} {Key T Input : Type ℓ} where
  abbrev pub item_signals : (Key → T → Option Input) → List (Key × T) → List (Signal Key Input)
  item_signals f [] = []
  item_signals f ((i, item) ∷ es) = signal_of i (f i item) ++ item_signals f es

  fire_items_front :
      (f : Key → T → Option Input) (es : List (Key × T)) (q : StreamableDeque (Signal Key Input))
      → (fire_items f es q).front_values ≡ q.front_values ++ item_signals f es
  unfolding fire_items
  fire_items_front f [] q = sym (append-nil _)
  fire_items_front f ((i, item) ∷ es) q =
      fire_items_front f es (fire q i (f i item)) ∙ rw (fire_front q i (f i item), append_assoc)

  fire_items_back :
      (f : Key → T → Option Input) (es : List (Key × T)) (q : StreamableDeque (Signal Key Input))
      → (fire_items f es q).back_values ≡ q.back_values
  unfolding fire_items
  fire_items_back f [] q = refl
  fire_items_back f ((i, item) ∷ es) q =
      fire_items_back f es (fire q i (f i item)) ∙ fire_back q i (f i item)

  module _ (dec : Discrete Key) (timeout_input : Key → ℕ → Option Input)
      (return_item : Key → T → Option Input) (now : ℕ) (l : Ledger Key T)
      (q : StreamableDeque (Signal Key Input)) where
    abbrev pub released : List Key
    released = values (tree_before now l.timers)

    pub tick_front :
        (tick dec timeout_input return_item now l q).1.front_values
        ≡ q.front_values
          ++ signals (λ i. timeout_input i now) released
          ++ item_signals return_item (values (tree_before now l.retainer))
    unfolding tick
    tick_front =
        fire_items_front return_item (values (tree_before now l.retainer)) _
        ∙ ap (λ xs. xs ++ item_signals return_item (values (tree_before now l.retainer)))
            (fire_timers_front dec (λ i. timeout_input i now) released l.ids q)

    pub tick_back : (tick dec timeout_input return_item now l q).1.back_values ≡ q.back_values
    unfolding tick
    tick_back =
        fire_items_back return_item (values (tree_before now l.retainer)) _
        ∙ fire_timers_back dec (λ i. timeout_input i now) released l.ids q

    pub tick_ids :
        (z : Key)
        → (tick dec timeout_input return_item now l q).0.ids z
          ≡ (if contains dec z released then none else l.ids z)
    unfolding tick
    tick_ids z = fire_timers_ids dec (λ i. timeout_input i now) released l.ids q z
