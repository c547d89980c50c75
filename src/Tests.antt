-- ===== src/Tests.antt =====
-- Runs of the models at concrete inputs.
pub mod EngineTests
pub mod StoreTests
pub mod DecisionTests
pub mod FragmentTests
pub mod HttpTests
pub mod SummaryTests
pub mod ModvalidateTests
pub mod SqlTests
pub mod TimesheetTests
