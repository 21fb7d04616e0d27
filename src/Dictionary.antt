-- ===== src/Dictionary.antt =====
-- dictionary/mod.rs: dictionaries, the binary tries of cells that keep a value under each bit string
-- of one length.
pub mod Label
pub mod Hashmap
