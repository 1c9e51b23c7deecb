-- ===== src/Cdn.antt =====
-- cdn/supervisor: the seed of a file. Texts of records are lists of bytes; ids, URLs and digests that
-- are only compared are numbers, of which 0 is the empty text.
pub mod Records
pub mod Tasks
pub mod Disk
pub mod Detector
