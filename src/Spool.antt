-- ===== src/Spool.antt =====
-- internal/spool/spool.go: the newline-delimited event queue on disk.
-- The file's content is a byte string and each operation is one critical section under the file's
-- lock, so concurrent callers are a sequence of calls. `Faults` says which system calls fail; a
-- write that fails may have written some of its bytes first.
pub mod Io
pub mod Lines
pub mod Queue
mod Encoding
pub mod Push
pub mod Commit
