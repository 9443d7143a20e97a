-- ===== src/Runtime.antt =====
-- runtime/c_rt: the C runtime's hash map from strings to values.
pub mod Table
pub mod Probe
pub mod View
pub mod Insert
pub mod Size
pub mod Grow
pub mod Spread
