-- ===== src/Canvas.antt =====
-- The canvas: its edges, the specifications of its nodes and the mutations (apps/canvas-api/src/canvas).
pub mod Cycle
pub mod Io
pub mod Rules
pub mod NodeSpec
pub mod Validator
pub mod Board
pub mod Nodes
pub mod Edges
pub mod Sound
pub mod Edit
pub mod Mutator
pub mod Replace
pub mod ReplaceTests
pub mod Snapshots
pub mod Tests
