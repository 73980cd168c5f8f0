-- ===== src/Std.antt =====
-- What the source uses of Rust's standard library beyond `Option`, `Result` and lists: numbers as
-- text, conversions between integer types, and the stable sort.
pub mod Parse
pub mod Print
pub mod Words
pub mod Sort
pub mod HashMap
