-- ===== src/Interval.antt =====
-- src/cc/warp/interval.h
pub mod Point
pub mod Order
pub mod Range
pub mod Set
mod Examples
