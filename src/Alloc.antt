-- ===== src/Alloc.antt =====
-- libs/mem-alloc: the allocators.
pub mod PageMan
