-- ===== src/Domain.antt =====
-- internal/domain: the grant states, the closed codes, the names of a grant, and the cleaning of
-- agent text.
pub mod State
pub mod Codes
pub mod Names
pub mod Sanitize
