-- ===== src/Hack.antt =====
-- hack/code: the programs that generate tables of this repository.
pub mod Prices
pub mod Skus
