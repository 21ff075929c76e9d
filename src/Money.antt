-- ===== src/Money.antt =====
-- Python's decimal numbers, as the code computes with them.
pub mod Decimal
pub mod Order
mod Tests
