-- ===== src/Feature.antt =====
-- feature/feature.go: the reader of canonical strings, and what is drawn from a term.
pub mod Node
pub mod Reader
pub mod Hash
pub mod Tokens
pub mod Rational
pub mod Facets
pub mod Similarity
