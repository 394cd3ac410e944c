-- ===== src/Node/Spec.antt =====
-- What a tree is for its clients: which ids it holds, which node has an id, which is a node's
-- parent, and an edit at an id; and the invariant of `descendant_keys`.
use rex_sm.Base.{
  ◌≡◌, refl, Bool, true, false, ◌||◌, Option, none, some, if◌then◌else◌, eqb, contains,
}
use rex_sm.Node.Tree.{Node, node, Nodes, nil, cons, id}

abbrev pub or_else {ℓ} : {A : Type ℓ} → Option A → Option A → Option A
or_else none b = b
or_else (some a) b = some a

pub or_else-none {ℓ} : {A : Type ℓ} (o : Option A) → or_else o none ≡ o
or_else-none none = refl
or_else-none (some a) = refl

module _ {ℓ} {Key S : Type ℓ} (dec : Discrete Key) where
  unfoldable mutual
    -- whether a node of the tree has the id
    pub has : Key → Node Key S → Bool
    has x (node i s ks cs) = eqb dec i x || has_any x cs

    pub has_any : Key → Nodes Key S → Bool
    has_any x nil = false
    has_any x (cons n ns) = has x n || has_any x ns

  unfoldable mutual
    -- the first node with the id, in depth-first order
    pub find_node : Key → Node Key S → Option (Node Key S)
    find_node x (node i s ks cs) = if eqb dec i x then some (node i s ks cs) else find_any x cs

    pub find_any : Key → Nodes Key S → Option (Node Key S)
    find_any x nil = none
    find_any x (cons n ns) = or_else (find_node x n) (find_any x ns)

  unfoldable pub is_child : Key → Nodes Key S → Bool
  is_child x nil = false
  is_child x (cons n ns) = eqb dec (id n) x || is_child x ns

  unfoldable mutual
    -- the id of the node that has a child with the id
    pub parent_in : Key → Node Key S → Option Key
    parent_in x (node i s ks cs) = if is_child x cs then some i else parent_any x cs

    pub parent_any : Key → Nodes Key S → Option Key
    parent_any x nil = none
    parent_any x (cons n ns) = or_else (parent_in x n) (parent_any x ns)

  -- `f` at the node with the id, and `h` at each of its ancestors
  module _ (x : Key) (f h : Node Key S → Node Key S) where
    unfoldable mutual
      pub edit : Node Key S → Node Key S
      edit (node i s ks cs) =
          let below = h (node i s ks (edit_any cs)) in
          if eqb dec i x then f (node i s ks cs) else if has_any x cs then below else node i s ks cs

      pub edit_any : Nodes Key S → Nodes Key S
      edit_any nil = nil
      edit_any (cons n ns) = cons (edit n) (edit_any ns)

  -- `descendant_keys` holds the ids below the node, and no id stands twice.
  abbrev mutual
    pub IsKeyed : Node Key S → Type ℓ
    IsKeyed (node i s ks cs) =
        ((x : Key) → contains dec x ks ≡ has_any x cs) × (has_any i cs ≡ false) × IsKeyedAll cs

    pub IsKeyedAll : Nodes Key S → Type ℓ
    IsKeyedAll nil = Unit
    IsKeyedAll (cons n ns) =
        IsKeyed n × ((x : Key) → has x n ≡ true → has_any x ns ≡ false) × IsKeyedAll ns
