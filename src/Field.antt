-- ===== src/Field.antt =====
-- dblib/ocesql.c: `create_realdata` and `create_coboldata`, between the fields of a COBOL program and
-- the texts that the database takes and gives.
pub mod Buffer
pub mod Place
pub mod Packed
pub mod Store
pub mod Load
pub mod Digits
pub mod RoundTrip
pub mod LeadingSign
pub mod Text
pub mod Bounds
pub mod Misplaced
pub mod Occurs
