-- ===== src/Policy.antt =====
-- core/policyengine/engine: the policy language, its interpreter and the actions of its rules.
pub mod Syntax
pub mod Lists
pub mod Visit
pub mod Actions
pub mod Interpreter
pub mod Process
pub mod Pool
