-- ===== src/Node/Descent.antt =====
-- `Zipper::by_id` and the way back: the descent ends at the node with the id, and to change that
-- node and climb is to edit the tree.
use rex_sm.Base.{
  ℕ, zero, suc, ◌-◌, ◌≤◌, ◌≡◌, refl, ap, sym, ◌∙◌, inl, inr, true, false, some, List, [], ◌∷◌, ok,
  if◌then◌else◌, eqb, eqb_sound, Bool-cases, arith, length, length-append, set, push, swap,
  swap-swap_remove,
}
use rex_sm.Node.Tree.{Node, node, Nodes, id, to_list, from_list, size, child_idx}
use rex_sm.Node.Zipper.{Zipper, Parent, boxed, child, attach, climb, parent_id, by_id_loop}
use rex_sm.Node.Spec.{has, has_any, find_node, parent_in, edit, IsKeyed}
use rex_sm.Node.Pick.{Picked, pick}

module _ {ℓ} {Key S : Type ℓ} where
  abbrev pub focus : Node Key S → Parent Key S → ℕ → Zipper Key S
  focus n up at = record { node = n; parent = up; self_idx = at }

  to_list-from_list : (xs : List (Node Key S)) → to_list (from_list xs) ≡ xs
  to_list-from_list [] = refl
  to_list-from_list (n ∷ xs) = ap (◌∷◌ n) (to_list-from_list xs)

  length-push : (xs : List (Node Key S)) (w : Node Key S) → length (push xs w) - 1 ≡ length xs
  length-push xs w = omega (arith, length-append xs (w ∷ []))

  pub attach_lem :
      (i : Key) (s : S) (ks : List Key) (rest xs : List (Node Key S)) (idx : ℕ) (w : Node Key S)
      → swap (push rest w) idx (length rest) ≡ ok xs
      → attach (node i s ks (from_list rest)) w idx ≡ ok (node i s ks (from_list xs))
  unfolding attach
  attach_lem i s ks rest xs idx w h = rw (to_list-from_list rest, length-push rest w, h)

module _ {ℓ} {Key S : Type ℓ} (dec : Discrete Key) (x : Key) where
  -- What a descent from `z` comes to.
  pub record Focused (z z' : Zipper Key S) : Type ℓ where
    pub at_id : eqb dec (id z'.node) x ≡ true
    pub finds : find_node dec x z.node ≡ some z'.node
    pub above :
        parent_id z'.parent
        ≡ (if eqb dec (id z.node) x then parent_id z.parent else parent_in dec x z.node)
    pub back :
        (f h : Node Key S → Node Key S)
        → climb h (f z'.node) z'.parent z'.self_idx
          ≡ climb h (edit dec x f h z.node) z.parent z.self_idx

  here :
      (i : Key) (s : S) (ks : List Key) (cs : Nodes Key S) (up : Parent Key S) (at : ℕ)
      → eqb dec i x ≡ true
      → Focused (focus (node i s ks cs) (up) (at)) (focus (node i s ks cs) (up) (at))
  unfolding find_node edit
  here i s ks cs up at e = record { at_id = e; finds = rw e; above = rw e; back = λ f h. rw e }

  pub not_root :
      (i : Key) (cs : Nodes Key S)
      → has_any dec i cs ≡ false
      → has_any dec x cs ≡ true
      → eqb dec i x ≡ false
  not_root i cs fresh below = elim (Bool-cases (eqb dec i x)) [
    | inl e ↦ cc (ap (λ j. has_any dec j cs) (eqb_sound dec i x e))
    | inr e ↦ e
  ]

  below :
      (i : Key) (s : S) (ks : List Key) (cs : Nodes Key S) (up : Parent Key S) (at : ℕ)
      (rest : List (Node Key S)) (z' : Zipper Key S)
      → eqb dec i x ≡ false
      → has_any dec x cs ≡ true
      → (p : Picked dec x cs)
      → ((w : Node Key S) → swap (push rest w) p.idx (length rest) ≡ ok (set (to_list cs) p.idx w))
      → Focused (focus (p.picked) (boxed (node i s ks (from_list rest)) up at) (p.idx)) z'
      → Focused (focus (node i s ks cs) (up) (at)) z'
  unfolding find_node edit parent_in climb parent_id
  below i s ks cs up at rest z' e in_cs p put_back foc = record {
    at_id = foc.at_id;
    finds = rw e (p.finds ∙ foc.finds);
    above = rw e (foc.above ∙ sym (p.parents i));
    back = λ f h.
        foc.back f h
        ∙ rw (
          e,
          in_cs,
          attach_lem i s ks rest _ p.idx (edit dec x f h p.picked)
              (put_back (edit dec x f h p.picked)),
          p.edited f h,
        );
  }

  pub descent :
      (fuel : ℕ) (n : Node Key S) (up : Parent Key S) (at : ℕ)
      → size n ≤ fuel
      → IsKeyed dec n
      → has dec x n ≡ true
      → let z = focus n up at in
        (z' : Zipper Key S) × (by_id_loop dec fuel z x ≡ ok z') × Focused z z'
  unfolding by_id_loop size has child_idx child
  descent zero (node i s ks cs) up at big k h = absurd (omega arith)
  descent (suc fuel) (node i s ks cs) up at big k h = elim (Bool-cases (has_any dec x cs)) [
    | inr e ↦ (focus (node i s ks cs) (up) (at), rw (k.0 x, e), here i s ks cs up at (ground arith))
    | inl e ↦
        let p = pick dec x cs k.2 e in
        let (rest, removed, put_back) = swap-swap_remove (to_list cs) p.idx p.picked p.at_idx in
        let (z', found, foc) =
          descent fuel p.picked (boxed (node i s ks (from_list rest)) up at) p.idx
            (omega (arith, p.smaller)) p.keyed p.holds in
        (
          z',
          rw (k.0 x, e, p.found_idx, removed) found,
          below i s ks cs up at rest z' (not_root i cs k.1 e) e p put_back foc,
        )
  ]
