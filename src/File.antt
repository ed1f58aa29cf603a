-- ===== src/File.antt =====
-- Program/src/filesystem_funcs.c, for the part that keeps the state of one file transfer: which
-- parts of the file are still missing, and checksums.
pub mod Missing
pub mod Checksum
