-- ===== src/Domain.antt =====
-- backend/domain: value objects, entities, events and the policy engine.
pub mod Snapshot
pub mod Metadata
pub mod Risk
pub mod Events
pub mod Rule
pub mod Approval
pub mod Policy
