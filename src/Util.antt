-- ===== src/Util.antt =====
-- Parts of common/util.c, and base/fd_info.c.
pub mod Json
pub mod FdTable
pub mod Writev
pub mod Closep
pub mod Readall
pub mod Strlcpy
mod Tests
