-- ===== src/Engine.antt =====
-- core/policyengine/engine: records, their context, field mappers and criteria.
pub mod Symlink
pub mod Fields
pub mod Record
pub mod Context
pub mod Quotes
pub mod Mapper
pub mod Criterion
