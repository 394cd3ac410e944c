-- ===== src/Node.antt =====
-- src/node.rs: the tree that holds the states of one hierarchy, and the zipper that edits it.
pub mod Tree
pub mod Zipper
pub mod Edit
pub mod Spec
pub mod Pick
pub mod Descent
pub mod Read
pub mod Update
pub mod Frame
pub mod Insert
pub mod Leaf
pub mod LeafReads
pub mod Visit
pub mod Focus
