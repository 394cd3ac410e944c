-- ===== src/Tests/Nodes.antt =====
-- Witnesses for the state trees: a root, its child and its grandchild.
use mathlib.Core.Option
use rex_sm.Base.{
  ℕ, ◌+◌, ◌≡◌, refl, true, false, some, [], ◌∷◌, ok, panic, ◌>>=◌, ℕ_discrete, set, contains, eqb,
  arith,
}
use rex_sm.Node.Tree.{
  Node, node, nil, cons, id, children, with_children, get, get_state, get_parent_id, new,
}
use rex_sm.Node.Zipper.{Zipper, child, parent, zipper, by_id, finish_update}
use rex_sm.Node.Edit.{insert, update, update_and_get_parent_id, update_all_fn}
use rex_sm.Node.Spec.{has, find_node, parent_in, IsKeyed}
use rex_sm.Node.Read.{get-find_node, get_parent_id-parent_in}
use rex_sm.Node.Frame.{Updated, update-Updated, update_and_get_parent_id-Updated, edit_missing}
use rex_sm.Node.LeafReads.{Inserted, insert-Inserted}
use rex_sm.Node.Visit.{rewrite_state, update_all_fn-states}
use rex_sm.Node.Focus.{parent-child, finish_update-by_id}

abbrev start : ℕ → ℕ
start i = 0

abbrev grandchild : Node ℕ ℕ
grandchild = node 3 30 [] nil

abbrev first_child : Node ℕ ℕ
first_child = node 2 20 (3 ∷ []) (cons grandchild nil)

abbrev tree : Node ℕ ℕ
tree = node 1 10 (2 ∷ 3 ∷ []) (cons first_child nil)

tree-IsKeyed : IsKeyed ℕ_discrete tree
unfolding has contains ℕ_discrete
tree-IsKeyed = (
  (λ x. ground arith),
  refl,
  (((λ x. ground arith), refl, (((λ x. refl), refl, tt), (λ x h. refl), tt)), (λ x h. refl), tt),
)

has_3 : has ℕ_discrete 3 tree ≡ true
unfolding has ℕ_discrete
has_3 = refl

has_no_9 : has ℕ_discrete 9 tree ≡ false
unfolding has ℕ_discrete
has_no_9 = refl

get-find_node_example : get ℕ_discrete tree 3 ≡ ok (find_node ℕ_discrete 3 tree)
get-find_node_example = get-find_node ℕ_discrete 3 tree tree-IsKeyed

get_parent_id-parent_in_example : get_parent_id ℕ_discrete tree 3 ≡ ok (parent_in ℕ_discrete 3 tree)
get_parent_id-parent_in_example = get_parent_id-parent_in ℕ_discrete 3 tree tree-IsKeyed

update-Updated_example :
    let (n', r) = update ℕ_discrete start tree (record { id = 3; state = 31 }) in
    (r ≡ ok tt) × Updated ℕ_discrete 3 31 tree n'
update-Updated_example = update-Updated ℕ_discrete start tree 3 31 tree-IsKeyed has_3

update_and_get_parent_id-Updated_example :
    let (n', r) = update_and_get_parent_id ℕ_discrete start tree (record { id = 3; state = 31 }) in
    (r ≡ get_parent_id ℕ_discrete tree 3) × Updated ℕ_discrete 3 31 tree n'
update_and_get_parent_id-Updated_example =
    update_and_get_parent_id-Updated ℕ_discrete start tree 3 31 tree-IsKeyed has_3

edit_missing_example :
    (update ℕ_discrete start tree (record { id = 9; state = 31 }) ≡ (new start (id tree), panic))
    × (insert ℕ_discrete start tree (record { parent_id = some 9; id = 4 })
        ≡ (new start (id tree), panic))
edit_missing_example = edit_missing ℕ_discrete start tree 9 4 31 tree-IsKeyed has_no_9

insert-Inserted_example :
    let (n', r) = insert ℕ_discrete start tree (record { parent_id = some 3; id = 9 }) in
    (r ≡ ok tt) × Inserted ℕ_discrete start 3 9 tree n'
insert-Inserted_example = insert-Inserted ℕ_discrete start 3 9 tree tree-IsKeyed has_no_9 has_3

parent-child_example :
    (zc : Zipper ℕ ℕ) × (child (zipper tree) 0 ≡ ok zc)
    × (zc.node ≡ first_child)
    × ((w : Node ℕ ℕ)
        → parent (record zc { node = w })
          ≡ ok (record (zipper tree) { node = with_children (set (children tree) 0 w) tree }))
unfolding zipper
parent-child_example = parent-child (zipper tree) 0 first_child refl

finish_update-by_id_example :
    (z : Zipper ℕ ℕ) × (by_id ℕ_discrete (zipper tree) 3 ≡ ok z)
    × (eqb ℕ_discrete (id z.node) 3 ≡ true)
    × (finish_update z ≡ ok tree)
finish_update-by_id_example = finish_update-by_id ℕ_discrete 3 tree tree-IsKeyed has_3

abbrev doubled : ℕ → ℕ
doubled s = s + s

update_all_fn-states_example :
    let (n', r) = update_all_fn (rewrite_state doubled) start tree in
    (r ≡ ok tt)
    × IsKeyed ℕ_discrete n'
    × (has ℕ_discrete 3 n' ≡ has ℕ_discrete 3 tree)
    × (get_parent_id ℕ_discrete n' 3 ≡ get_parent_id ℕ_discrete tree 3)
    × (get_state ℕ_discrete n' 3 ≡ (do o ← get_state ℕ_discrete tree 3; ok (Option.map doubled o)))
update_all_fn-states_example = update_all_fn-states doubled ℕ_discrete start tree 3 tree-IsKeyed
