-- ===== src/Sds.antt =====
-- redis-stable/src/sds.c: strings that carry their length and their free space.
pub mod Text
