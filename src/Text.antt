-- ===== src/Text.antt =====
-- What the program prints: text as a list of the codes of its characters.
pub mod Decimal
pub mod Hms
pub mod Display
