-- ===== src/Domain/Ontology.antt =====
-- unica/pkg/domain/ontology.go: what is true of a product line's business. Parts are Types, Hierarchy
-- (the classes), Facts (assertions and their scopes), Values (the check of a value) and Consistency
-- (the check of an ontology).
pub mod Types
pub mod Hierarchy
pub mod Facts
pub mod Values
pub mod Labels
pub mod Consistency
pub mod Samples
mod Tests
