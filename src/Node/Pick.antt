-- ===== src/Node/Pick.antt =====
-- The child that a descent takes: the one whose tree holds the id.
use rex_sm.Base.{
  ℕ, suc, ◌≤◌, ◌≡◌, refl, ap, ◌∙◌, inl, inr, true, false, none, some, if◌then◌else◌, eqb,
  Bool-cases, arith, get_elem?, set,
}
use rex_sm.Node.Tree.{
  size_all, Node, node, Nodes, nil, cons, id, to_list, from_list, size, leads_to, find_child,
  find_idx,
}
use rex_sm.Node.Spec.{
  or_else-none, has, find_node, is_child, parent_in, has_any, find_any, parent_any, edit, edit_any,
  IsKeyed, IsKeyedAll,
}

module _ {ℓ} {Key S : Type ℓ} where
  pub from_list-to_list : (ns : Nodes Key S) → from_list (to_list ns) ≡ ns
  from_list-to_list nil = refl
  from_list-to_list (cons n ns) = ap (cons n) (from_list-to_list ns)

module _ {ℓ} {Key S : Type ℓ} (dec : Discrete Key) (x : Key) where
  pub leads_to-has : (n : Node Key S) → IsKeyed dec n → leads_to dec x n ≡ has dec x n
  unfolding has
  leads_to-has (node i s ks cs) k = rw (k.0 x)

  mutual
    unfolding has find_node

    pub find_node_absent : (n : Node Key S) → has dec x n ≡ false → find_node dec x n ≡ none
    find_node_absent (node i s ks cs) h = ground (arith, find_any_absent cs)

    pub find_any_absent : (ns : Nodes Key S) → has_any dec x ns ≡ false → find_any dec x ns ≡ none
    find_any_absent nil h = refl
    find_any_absent (cons n ns) h = ground (arith, find_node_absent n, find_any_absent ns)

  pub is_child_absent : (ns : Nodes Key S) → has_any dec x ns ≡ false → is_child dec x ns ≡ false
  unfolding is_child has
  is_child_absent nil h = refl
  is_child_absent (cons (node i s ks cs) ns) h = ground (arith, is_child_absent ns)

  mutual
    unfolding has parent_in

    pub parent_in_absent : (n : Node Key S) → has dec x n ≡ false → parent_in dec x n ≡ none
    parent_in_absent (node i s ks cs) h = ground (arith, is_child_absent cs, parent_any_absent cs)

    pub parent_any_absent :
        (ns : Nodes Key S) → has_any dec x ns ≡ false → parent_any dec x ns ≡ none
    parent_any_absent nil h = refl
    parent_any_absent (cons n ns) h = ground (arith, parent_in_absent n, parent_any_absent ns)

  module _ (f h : Node Key S → Node Key S) where
    pub edit_absent : (n : Node Key S) → has dec x n ≡ false → edit dec x f h n ≡ n
    unfolding has edit
    edit_absent (node i s ks cs) e = ground arith

    pub edit_any_absent : (ns : Nodes Key S) → has_any dec x ns ≡ false → edit_any dec x f h ns ≡ ns
    unfolding has edit
    edit_any_absent nil e = refl
    edit_any_absent (cons n ns) e = ground (arith, edit_absent n, edit_any_absent ns)

  pub record Picked (ns : Nodes Key S) : Type ℓ where
    pub idx : ℕ
    pub picked : Node Key S
    pub found_idx : find_idx dec x (to_list ns) ≡ some idx
    pub found : find_child dec x (to_list ns) ≡ some picked
    pub at_idx : get_elem? (to_list ns) idx ≡ some picked
    pub holds : has dec x picked ≡ true
    pub keyed : IsKeyed dec picked
    pub smaller : size picked ≤ size_all ns
    pub finds : find_any dec x ns ≡ find_node dec x picked
    pub parents :
        (i : Key)
        → (if is_child dec x ns then some i else parent_any dec x ns)
          ≡ (if eqb dec (id picked) x then some i else parent_in dec x picked)
    pub edited :
        (f h : Node Key S → Node Key S)
        → from_list (set (to_list ns) idx (edit dec x f h picked)) ≡ edit_any dec x f h ns

  id-has : (n : Node Key S) → has dec x n ≡ false → eqb dec (id n) x ≡ false
  unfolding has
  id-has (node i s ks cs) h = ground arith

  pick_here :
      (n : Node Key S) (ns : Nodes Key S)
      → IsKeyedAll dec (cons n ns)
      → has dec x n ≡ true
      → Picked (cons n ns)
  unfolding find_idx find_child has find_node is_child parent_in edit size
  pick_here n ns k h =
      let gone = k.1 x h in
      let leads = leads_to-has n k.0 ∙ h in
      record {
        idx = 0;
        picked = n;
        found_idx = rw leads;
        found = rw leads;
        at_idx = refl;
        holds = h;
        keyed = k.0;
        smaller = omega arith;
        finds = ground (arith, find_any_absent ns);
        parents = λ i.
            ground
              (arith, is_child_absent ns, parent_any_absent ns, or_else-none (parent_in dec x n));
        edited = λ f h'. rw (edit_any_absent f h' ns gone, from_list-to_list ns);
      }

  pick_later :
      (n : Node Key S) (ns : Nodes Key S)
      → IsKeyed dec n
      → has dec x n ≡ false
      → Picked ns
      → Picked (cons n ns)
  unfolding find_idx find_child has find_node is_child parent_in edit size
  pick_later n ns k e p =
      let leads = leads_to-has n k ∙ e in
      record {
        idx = suc p.idx;
        picked = p.picked;
        found_idx = rw (leads, p.found_idx);
        found = rw leads p.found;
        at_idx = p.at_idx;
        holds = p.holds;
        keyed = p.keyed;
        smaller = omega (arith, p.smaller);
        finds = rw (find_node_absent n e) p.finds;
        parents = λ i. rw (id-has n e, parent_in_absent n e) (p.parents i);
        edited = λ f h. rw (edit_absent f h n e) (ap (cons n) (p.edited f h));
      }

  -- A descent to an id that is below finds the way, at every node.
  pub pick : (ns : Nodes Key S) → IsKeyedAll dec ns → has_any dec x ns ≡ true → Picked ns
  unfolding has
  pick nil k h = cc
  pick (cons n ns) k h = elim (Bool-cases (has dec x n)) [
    | inl e ↦ pick_here n ns k e
    | inr e ↦ pick_later n ns k.0 e (pick ns k.2 (rw e at h))
  ]
