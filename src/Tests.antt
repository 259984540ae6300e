-- ===== src/Tests.antt =====
-- Concrete policies, traces, records and clocks, on which the theorems are applied.
pub mod Samples
mod Engine
mod Policy
mod Pool
mod Flattener
mod Cache
mod Reader
mod Exporter
mod Monitor
mod Config
mod Json
mod Occurrence
mod Handlers
mod Ecs
