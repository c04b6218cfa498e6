-- ===== src/Plan.antt =====
-- Query plans: the graph that holds them, the logical plan and its optimizer.
pub mod Graph
pub mod Logical
pub mod Tree
pub mod Rows
pub mod Physical
pub mod Pushdown
pub mod Projection
mod Tests
