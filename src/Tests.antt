-- ===== src/Tests.antt =====
-- Concrete inputs: each main theorem applied to one of them.
mod Fixture
mod Guards
mod Rules
mod Texts
mod Durable
mod Gated
mod Parties
mod Brokered
mod Audited
