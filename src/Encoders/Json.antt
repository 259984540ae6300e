-- ===== src/Encoders/Json.antt =====
-- core/exporter/encoders/json.go: the JSON encoder.
pub mod Literal
pub mod Escape
pub mod Values
pub mod Sections
pub mod Commas
pub mod Object
pub mod Whole
pub mod Encoder
pub mod Batches
