-- ===== src/Scval.antt =====
-- src/scval.rs
pub mod Parts
pub mod Scalars
pub mod Enums
pub mod Udt
pub mod Convert
pub mod Fuel
pub mod Render
pub mod Bounds
pub mod Typing
pub mod RoundTrip
