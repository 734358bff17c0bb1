-- ===== src/Sqlca/LibError.antt =====
-- The enumeration `OCDB_NO_ERROR, …` of dblib/ocdb.h, as far as the library uses it.
use cobol.Prelude.{ℤ, pos}

abbrev pub not_found : ℤ
not_found = pos 2

abbrev pub out_of_memory : ℤ
out_of_memory = pos 3

abbrev pub too_many_arguments : ℤ
too_many_arguments = pos 5

abbrev pub too_few_arguments : ℤ
too_few_arguments = pos 6

abbrev pub empty : ℤ
empty = pos 17

abbrev pub no_conn : ℤ
no_conn = pos 21

abbrev pub invalid_stmt : ℤ
invalid_stmt = pos 23

abbrev pub connect : ℤ
connect = pos 33

abbrev pub warning_unknown_portal : ℤ
warning_unknown_portal = pos 36

abbrev pub warning_portal_exists : ℤ
warning_portal_exists = pos 39
