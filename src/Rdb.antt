-- ===== src/Rdb.antt =====
-- redis-2.6.14/src/rdb.c: lengths, integers and strings of the dump format.
pub mod Len
pub mod Save
pub mod Integer
pub mod String
