-- ===== src/Encoders/Ecs.antt =====
-- core/exporter/encoders/ecs.go: records as documents of the Elastic Common Schema.
pub mod Document
pub mod Parts
pub mod Kinds
pub mod Encode
pub mod Summary
