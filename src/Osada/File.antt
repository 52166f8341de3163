-- ===== src/Osada/File.antt =====
-- The handlers osada_truncate, osada_unlink, osada_read and osada_write.
pub mod Place
pub mod Size
pub mod Data
