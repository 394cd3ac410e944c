-- ===== src/Cases/Family.antt =====
-- src/test_support.rs, `node_state!`, and src/node.rs, `mod tests`: a family of five states. The
-- enums that the macro makes for the names have the same variants, here those of `Stage`.
use rex_sm.Base.{
  ℕ, ◌≡◌, refl, some, Result, ok, panic, spent, ◌>>=◌, ◌>>◌, unwrap, assert, eqb, if◌then◌else◌,
  ℕ_discrete, contains, set_insert, swap_remove, swap,
}
use rex_sm.Kind.{StateId}
use rex_sm.Node.Tree.{Node, new, get_state, state}
use rex_sm.Node.Zipper.{
  Zipper, finish_update, by_id, zipper, finish_insert, insert_child, attach, set_state,
}
use rex_sm.Node.Tree
use rex_sm.Node.Edit.{insert, into_update, finish_update_fn}

pub data NodeKind : Type 0 where
  alice bob charlie dave eve : NodeKind

pub data Stage : Type 0 where
  new_stage awaiting completed failed : Stage

pub data NodeState : Type 0 where
  alice_state bob_state charlie_state dave_state eve_state : Stage → NodeState

unfoldable pub NodeKind-discrete : Discrete NodeKind
NodeKind-discrete = hlevel

unfoldable pub NodeState-discrete : Discrete NodeState
NodeState-discrete = hlevel

-- the state of a kind at a stage: `NodeState::$name($name::New)` and its like
abbrev pub at_stage : Stage → NodeKind → NodeState
at_stage s alice = alice_state s
at_stage s bob = bob_state s
at_stage s charlie = charlie_state s
at_stage s dave = dave_state s
at_stage s eve = eve_state s

unfoldable pub new_state : NodeKind → NodeState
new_state = at_stage new_stage

unfoldable pub failed_state : NodeKind → NodeState
failed_state = at_stage failed

unfoldable pub completed_state : NodeKind → NodeState
completed_state = at_stage completed

unfoldable pub as_ref : NodeState → NodeKind
as_ref (alice_state s) = alice
as_ref (bob_state s) = bob
as_ref (charlie_state s) = charlie
as_ref (dave_state s) = dave
as_ref (eve_state s) = eve

abbrev pub MemberKey : Type 0
MemberKey = StateId NodeKind ℕ

unfoldable pub member_dec : Discrete (StateId NodeKind ℕ)
member_dec = hlevel (NodeKind-discrete, ℕ_discrete)

abbrev pub FamilyTree : Type 0
FamilyTree = Node (StateId NodeKind ℕ) NodeState

abbrev fresh : MemberKey → NodeState
fresh i = new_state i.kind

abbrev returned : FamilyTree × Result (Unit {0}) → Result FamilyTree
returned (n, ok u) = ok n
returned (n, panic) = panic
returned (n, spent) = spent

-- `tree.insert(Insert { parent_id: Some(parent_id), id })`
unfoldable pub insert_below : MemberKey → MemberKey → FamilyTree → Result FamilyTree
insert_below parent_id i tree =
    returned (insert member_dec fresh tree (record { parent_id = some parent_id; id = i }))

-- `assert_eq!(tree.get_state(id).unwrap(), &state)`
unfoldable pub assert_state : FamilyTree → MemberKey → NodeState → Result (Unit {0})
assert_state tree i s = do
  found ← get_state member_dec tree i
  t ← unwrap found
  assert (eqb NodeState-discrete t s)

-- a state is new, is updated, and is read again
unfoldable pub move_to : Stage → MemberKey → FamilyTree → Result FamilyTree
unfolding assert_state
move_to stage i tree = do
  assert_state tree i (new_state i.kind)
  moved ← into_update member_dec fresh tree (record { id = i; state = at_stage stage i.kind })
  assert_state moved i (at_stage stage i.kind)
  ok moved

-- the closure: who is not completed fails
unfoldable pub fail_rest : Zipper MemberKey NodeState → Result FamilyTree
fail_rest z =
    let kind = as_ref (state z.node) in
    finish_update (
      if eqb NodeState-discrete (state z.node) (completed_state kind)
      then z
      else record z { node = Tree.with_state (failed_state kind) z.node })

-- the test, with the uuids of the five ids
unfoldable pub insert_child_state : ℕ → ℕ → ℕ → ℕ → ℕ → Result (Unit {0})
unfolding insert_below move_to fail_rest
insert_child_state a b c d e =
    let alice_id : MemberKey = record { kind = alice; uuid = a } in
    let bob_id : MemberKey = record { kind = bob; uuid = b } in
    let charlie_id : MemberKey = record { kind = charlie; uuid = c } in
    let dave_id : MemberKey = record { kind = dave; uuid = d } in
    let eve_id : MemberKey = record { kind = eve; uuid = e } in
    do
      with_bob ← insert_below alice_id bob_id (new fresh alice_id)
      with_charlie ← insert_below alice_id charlie_id with_bob
      with_dave ← insert_below charlie_id dave_id with_charlie
      with_eve ← insert_below dave_id eve_id with_dave
      bob_awaits ← move_to awaiting bob_id with_eve
      charlie_awaits ← move_to awaiting charlie_id bob_awaits
      dave_completed ← move_to completed dave_id charlie_awaits
      eve_failed ← move_to failed eve_id dave_completed
      all_failed ← finish_update_fn fail_rest eve_failed
      assert (eqb NodeState-discrete (state all_failed) (alice_state failed))
      assert_state all_failed bob_id (bob_state failed)
      assert_state all_failed charlie_id (charlie_state failed)
      assert_state all_failed dave_id (dave_state completed)
      assert_state all_failed eve_id (eve_state failed)

passes : insert_child_state 1 2 3 4 5 ≡ ok tt
unfolding insert_child_state Tree.get NodeKind-discrete NodeState-discrete member_dec new_state
    failed_state completed_state as_ref insert into_update finish_update_fn assert_state get_state
    ℕ_discrete new by_id Tree.size zipper contains finish_insert insert_child set_insert
    Tree.child_idx rex_sm.Node.Zipper.child swap_remove attach swap Tree.get_loop Tree.child
    finish_update set_state
passes = refl
