-- ===== src/Money.antt =====
-- patterns/money_handling/money.py and operations.py: sums, differences and allocations of money.
pub mod Operations
pub mod Conservation
mod Tests
