-- ===== src/Planner.antt =====
-- packages/planner: the operator arena, the fusion of rankings, and the execution of a plan.
pub mod Ir
pub mod Fusion
pub mod Execute
pub mod Intent
pub mod Templates
pub mod Choice
mod Tests
mod FusionTests
mod ExecuteTests
mod TemplateTests
mod ChoiceTests
