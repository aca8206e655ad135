-- ===== src/Kv.antt =====
-- engine/kv_cache.py: the host side of `PagedKVCache`.
pub mod Dict
pub mod Trie
pub mod Pool
