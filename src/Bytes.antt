-- ===== src/Bytes.antt =====
-- Byte-level helpers: words in network order, buffers, decimal text.
pub mod Words
pub mod Buffer
pub mod Decimal
pub mod Chunks
