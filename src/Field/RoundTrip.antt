-- ===== src/Field/RoundTrip.antt =====
-- What `create_coboldata` stores, `create_realdata` reads back: the numeric types of dblib/ocesql.c.
pub mod Numeral
pub mod Overpunch
pub mod Display
pub mod PackedDecimal
