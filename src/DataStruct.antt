-- ===== src/DataStruct.antt =====
-- include/data-struct and libs/data-struct
pub mod Key
pub mod Name
pub mod Hashmap
