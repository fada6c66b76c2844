-- ===== src/Wire.antt =====
-- Numbers and buffers on the wire and in files.
pub mod Bytes
pub mod Slices
