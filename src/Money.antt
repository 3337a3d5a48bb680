-- ===== src/Money.antt =====
-- backend/src/money: the settlement arithmetic of the backend.
pub mod Rounding
pub mod Split
pub mod Decimal
mod Tests
