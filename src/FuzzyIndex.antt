-- ===== src/FuzzyIndex.antt =====
-- The path index of src/fuzzy_index.rs.
pub mod Vault
