-- ===== src/LibK.antt =====
-- kernel/include/libk/string.h: the memory and string functions that the kernel compiles in.
pub mod Memory
pub mod Copy
pub mod Text
pub mod Compare
mod Tests
