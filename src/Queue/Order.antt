-- ===== src/Queue/Order.antt =====
-- The order in which values leave the queue: it refines a list in which a priority value goes
-- behind the earlier ones and before all others.
use rex_sm.Base.{
  ℕ, zero, suc, ◌≡◌, refl, ap, sym, ◌∙◌, ◌⊎◌, inl, inr, Option, none, some, List, [], ◌∷◌, ◌++◌,
  push, length, arith,
}
use mathlib.Core.List.{append-nil, append_assoc}
use rex_sm.Queue.Deque.{StreamableDeque, push_front, push_back, take_value, pop_front}

pub data Priority : Type 0 where
  front back : Priority

module _ {ℓ} {A : Type ℓ} where
  unfoldable pub push_as : StreamableDeque A → Priority × A → StreamableDeque A
  push_as q (front, x) = push_front q x
  push_as q (back, x) = push_back q x

  pub push_all : StreamableDeque A → List (Priority × A) → StreamableDeque A
  push_all q [] = q
  push_all q (e ∷ es) = push_all (push_as q e) es

  -- What is pushed with a priority, in its order.
  pub pushed_with : Priority → List (Priority × A) → List A
  pushed_with p [] = []
  pushed_with front ((front, x) ∷ es) = x ∷ pushed_with front es
  pushed_with front ((back, x) ∷ es) = pushed_with front es
  pushed_with back ((front, x) ∷ es) = pushed_with back es
  pushed_with back ((back, x) ∷ es) = x ∷ pushed_with back es

  -- `n` calls of `pop_front`
  pub pops : ℕ → StreamableDeque A → List (Option A)
  pops zero q = []
  pops (suc n) q = (pop_front q).1 ∷ pops n (pop_front q).0

  abbrev pub contents : StreamableDeque A → List A
  contents q = q.front_values ++ q.back_values

  pub front-push_front :
      (q : StreamableDeque A) (x : A) → (push_front q x).front_values ≡ push q.front_values x
  unfolding push_front
  front-push_front q x = ground arith

  pub back-push_front :
      (q : StreamableDeque A) (x : A) → (push_front q x).back_values ≡ q.back_values
  unfolding push_front
  back-push_front q x = ground arith

  pub front-push_back :
      (q : StreamableDeque A) (x : A) → (push_back q x).front_values ≡ q.front_values
  unfolding push_back
  front-push_back q x = ground arith

  pub back-push_back :
      (q : StreamableDeque A) (x : A) → (push_back q x).back_values ≡ push q.back_values x
  unfolding push_back
  back-push_back q x = ground arith

  push_all_lem :
      (q : StreamableDeque A) (es : List (Priority × A))
      → ((push_all q es).front_values ≡ q.front_values ++ pushed_with front es)
        × ((push_all q es).back_values ≡ q.back_values ++ pushed_with back es)
  unfolding push_all push_as pushed_with
  push_all_lem q [] = (sym (append-nil _), sym (append-nil _))
  push_all_lem q ((front, x) ∷ es) =
      let (f, b) = push_all_lem (push_front q x) es in
      (f ∙ rw (front-push_front q x, append_assoc), b ∙ rw (back-push_front q x))
  push_all_lem q ((back, x) ∷ es) =
      let (f, b) = push_all_lem (push_back q x) es in
      (f ∙ rw (front-push_back q x), b ∙ rw (back-push_back q x, append_assoc))

  abbrev pub somes : List A → List (Option A)
  somes [] = []
  somes (x ∷ xs) = some x ∷ somes xs

  pops_back :
      (q : StreamableDeque A) (ys : List A)
      → q.front_values ≡ []
      → q.back_values ≡ ys
      → pops (length ys) q ≡ somes ys
  unfolding pops pop_front
  pops_back q [] f b = refl
  pops_back q (y ∷ ys) f b =
      rw (f, b, take_value)
        (ap (◌∷◌ (some y)) (pops_back (record q { back_values = ys }) ys f refl))

  pops_lem :
      (q : StreamableDeque A) (xs ys : List A)
      → q.front_values ≡ xs
      → q.back_values ≡ ys
      → pops (length (xs ++ ys)) q ≡ somes (xs ++ ys)
  unfolding pops pop_front
  pops_lem q [] ys f b = pops_back q ys f b
  pops_lem q (x ∷ xs) ys f b =
      rw (f, take_value)
        (ap (◌∷◌ (some x)) (pops_lem (record q { front_values = xs }) xs ys refl b))

  -- However pushes of both priorities are interleaved, the queue then gives up first what it held
  -- with priority, then the pushed priority values, then the others, each in the order of pushing.
  pub pops-push_all :
      (q : StreamableDeque A) (es : List (Priority × A))
      → let out =
          (q.front_values ++ pushed_with front es) ++ (q.back_values ++ pushed_with back es) in
        pops (length out) (push_all q es) ≡ somes out
  pops-push_all q es = let (f, b) = push_all_lem q es in pops_lem (push_all q es) _ _ f b

  -- `pop_front` returns the head of the contents and leaves the tail, or fails on the empty queue.
  pub pop_front-contents :
      (q : StreamableDeque A)
      → ((contents q ≡ []) × (pop_front q ≡ (q, none)))
        ⊎ ((x : A) × ((pop_front q).1 ≡ some x) × (contents q ≡ x ∷ contents (pop_front q).0))
  unfolding pop_front take_value
  pop_front-contents q = go q.front_values q.back_values refl refl
    where
      go :
          (xs ys : List A)
          → q.front_values ≡ xs
          → q.back_values ≡ ys
          → ((contents q ≡ []) × (take_value q ≡ (q, none)))
            ⊎ ((x : A) × ((take_value q).1 ≡ some x) × (contents q ≡ x ∷ contents (take_value q).0))
      go [] [] f b = inl (rw (f, b), ground arith)
      go [] (y ∷ ys) f b = inr (y, ground arith, ground arith)
      go (x ∷ xs) ys f b = inr (x, ground arith, ground arith)
