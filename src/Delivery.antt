-- ===== src/Delivery.antt =====
-- `backend/app/modules/delivery`. A handler answers with the database that it commits, or with the
-- error that it raises.
pub mod Repository
pub mod Dispatch
pub mod Transit
pub mod Completion
pub mod Issues
pub mod Coupling
pub mod Effects
pub mod Finish
pub mod Runs
pub mod Apart
