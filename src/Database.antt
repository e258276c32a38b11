-- ===== src/Database.antt =====
-- backend/core/db.py, over what it uses of the SQL session.
pub mod Engine
pub mod Tables
pub mod History
pub mod Stores
pub mod Approvals
pub mod Audit
pub mod Keyed
pub mod Upserts
pub mod Ports
pub mod Retention
pub mod Configuration
pub mod Reviews
