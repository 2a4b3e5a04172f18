-- ===== src/Symbol.antt =====
-- internal/symbol: the names of addresses in the kernel and in processes.
pub mod Ksymbols
pub mod Usymbols
