-- ===== src/Node/Tree.antt =====
-- src/node.rs: `Node`, and the operations that only read it.
use rex_sm.Base.{
  ℕ, zero, suc, ◌+◌, Bool, ◌||◌, Option, none, some, List, [], ◌∷◌, Result, ok, spent, ◌>>=◌,
  unwrap, if◌then◌else◌, eqb, contains,
}
use mathlib.Core.Option

mutual
  -- `node id state descendant_keys children`
  pub data Node {ℓ} (Key S : Type ℓ) : Type ℓ where
    node : Key → S → List Key → Nodes Key S → Node Key S

  pub data Nodes {ℓ} (Key S : Type ℓ) : Type ℓ where
    nil : Nodes Key S
    cons : Node Key S → Nodes Key S → Nodes Key S

module _ {ℓ} {Key S : Type ℓ} where
  abbrev pub to_list : Nodes Key S → List (Node Key S)
  to_list nil = []
  to_list (cons n ns) = n ∷ to_list ns

  abbrev pub from_list : List (Node Key S) → Nodes Key S
  from_list [] = nil
  from_list (n ∷ ns) = cons n (from_list ns)

  abbrev pub id : Node Key S → Key
  id (node i s ks cs) = i

  abbrev pub state : Node Key S → S
  state (node i s ks cs) = s

  abbrev pub descendant_keys : Node Key S → List Key
  descendant_keys (node i s ks cs) = ks

  abbrev pub children : Node Key S → List (Node Key S)
  children (node i s ks cs) = to_list cs

  abbrev pub with_state : S → Node Key S → Node Key S
  with_state s' (node i s ks cs) = node i s' ks cs

  abbrev pub with_keys : List Key → Node Key S → Node Key S
  with_keys ks' (node i s ks cs) = node i s ks' cs

  abbrev pub with_children : List (Node Key S) → Node Key S → Node Key S
  with_children xs (node i s ks cs) = node i s ks (from_list xs)

  -- The number of nodes of a tree, the fuel of the descents.
  unfoldable mutual
    pub size : Node Key S → ℕ
    size (node i s ks cs) = suc (size_all cs)

    pub size_all : Nodes Key S → ℕ
    size_all nil = 0
    size_all (cons n ns) = size n + size_all ns

  -- `Node::new`; `new_state` is that of the id's kind.
  unfoldable pub new : (Key → S) → Key → Node Key S
  new new_state i = node i (new_state i) [] nil

module _ {ℓ} {Key S : Type ℓ} (dec : Discrete Key) where
  -- The test of the closures of `child` and `child_idx`.
  abbrev pub leads_to : Key → Node Key S → Bool
  leads_to x n = eqb dec (id n) x || contains dec x (descendant_keys n)

  unfoldable pub find_child : Key → List (Node Key S) → Option (Node Key S)
  find_child x [] = none
  find_child x (n ∷ ns) = if leads_to x n then some n else find_child x ns

  unfoldable pub child : Node Key S → Key → Option (Node Key S)
  unfolding find_child
  child n x = find_child x (children n)

  unfoldable pub find_idx : Key → List (Node Key S) → Option ℕ
  find_idx x [] = none
  find_idx x (n ∷ ns) = if leads_to x n then some 0 else Option.map suc (find_idx x ns)

  unfoldable pub child_idx : Node Key S → Key → Option ℕ
  unfolding find_idx
  child_idx n x = find_idx x (children n)

  -- The loop of `get`.
  unfoldable pub get_loop : ℕ → Node Key S → Key → Result (Node Key S)
  get_loop zero n x = spent
  get_loop (suc fuel) n x =
      let next = (do c ← unwrap (child n x); get_loop fuel c x) in
      if contains dec x (descendant_keys n) then next else ok n

  unfoldable pub get : Node Key S → Key → Result (Option (Node Key S))
  get n x =
      if eqb dec (id n) x
      then ok (some n)
      else if contains dec x (descendant_keys n)
      then (do m ← get_loop (size n) n x; ok (some m))
      else ok none

  unfoldable pub get_state : Node Key S → Key → Result (Option S)
  unfolding get
  get_state n x = do r ← get n x; ok (Option.map state r)

  -- The loop of `get_parent_id`.
  unfoldable pub parent_loop : ℕ → Node Key S → Key → Result (Option Key)
  parent_loop zero n x = spent
  parent_loop (suc fuel) n x =
      let next = (do
        c ← unwrap (child n x)
        let rest = parent_loop fuel c x
        if eqb dec (id c) x then ok (some (id n)) else rest) in
      if contains dec x (descendant_keys n) then next else ok none

  unfoldable pub get_parent_id : Node Key S → Key → Result (Option Key)
  unfolding parent_loop
  get_parent_id n x =
      if contains dec x (descendant_keys n) then parent_loop (size n) n x else ok none
