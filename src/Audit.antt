-- ===== src/Audit.antt =====
-- The audit log of benchmarks/: records of fields (Codec), in a buffer of segments (Buffer).
pub mod Codec
pub mod Buffer
