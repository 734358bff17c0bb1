-- ===== src/Tests/Fields.antt =====
-- Fields of a COBOL program, from and to the texts of the database.
use cobol.Prelude.{
  All, Bytes, Option, [], ap, arith, codes, false, length, neg, none, pos, refl, some, true, ◌++◌,
  ◌>>=◌, ◌∷◌, ◌≡◌, ◌≤◌,
}
use cobol.Field.Occurs.{SqlVar, HostTable, create_coboldata, create_coboldata-other}
use cobol.Field.Buffer.{Memory, write}
use cobol.Field.Packed.{IsDigit}
use cobol.Field.Store.{
  store, unsigned_number, signed_number_tc, signed_number_ls, unsigned_number_pd, signed_number_pd,
  alphanumeric,
}
use cobol.Field.Load.{load}
use cobol.Field.RoundTrip.Numeral.{Fits}
use cobol.Field.RoundTrip.Display.{load-store_unsigned, load-store_signed_tc}
use cobol.Field.RoundTrip.PackedDecimal.{load-store_unsigned_pd, load-store_signed_pd}
use cobol.Field.LeadingSign.{load-store_signed_ls}
use cobol.Field.Text.{load-store_alphanumeric}
use cobol.Field.Bounds.{stored_size, store-bound}
use cobol.Field.Misplaced.{store_signed_pd_overflow}

-- 12.5 in a field of four digits, one of them behind the point.
twelve-Fits : Fits 4 (codes "12") (codes "5")
twelve-Fits = record {
  whole_digits = ground arith;
  frac_digits = ground arith;
  room = omega arith;
  before = omega arith;
}

load-store_unsigned_example :
    (b : Bytes) × (store unsigned_number 4 (neg 1) (codes "12.5") ≡ some b)
    × (length b ≡ 4)
    × (load unsigned_number 4 (neg 1) (b ++ codes "xyz") ≡ some (codes "012.5"))
load-store_unsigned_example =
    load-store_unsigned 4 (codes "12") (codes "5") twelve-Fits (codes "xyz")

load-store_signed_tc_example :
    (b : Bytes) × (store signed_number_tc 4 (neg 1) (codes "-12.5") ≡ some (b ++ 0 ∷ []))
    × (length b ≡ 4)
    × (load signed_number_tc 4 (neg 1) (b ++ codes "xyz") ≡ some (codes "-012.5"))
load-store_signed_tc_example =
    load-store_signed_tc 4 (codes "12") (codes "5") twelve-Fits (codes "xyz") true

load-store_unsigned_pd_example :
    (b : Bytes) × (store unsigned_number_pd 4 (neg 1) (codes "12.5") ≡ some b)
    × (length b ≡ 3)
    × (load unsigned_number_pd 4 (neg 1) (b ++ codes "xyz") ≡ some (codes "012.5"))
load-store_unsigned_pd_example =
    load-store_unsigned_pd 4 (codes "12") (codes "5") twelve-Fits (codes "xyz")

load-store_signed_pd_example :
    (b : Bytes) × (store signed_number_pd 4 (neg 1) (codes "-12.5") ≡ some b)
    × (length b ≡ 3)
    × (load signed_number_pd 4 (neg 1) (b ++ codes "xyz") ≡ some (codes "-012.5"))
load-store_signed_pd_example =
    load-store_signed_pd 4 (codes "12") (codes "5") twelve-Fits (codes "xyz") (omega arith) true

digits : (All IsDigit (codes "427"))
digits = ground arith

load-store_signed_ls_example :
    (store signed_number_ls 3 (pos 0) (codes "-427") ≡ some (codes "-427"))
    × (load signed_number_ls 3 (pos 0) (codes "-427xyz") ≡ some (codes "-427"))
load-store_signed_ls_example = load-store_signed_ls 3 (codes "427") digits true (codes "xyz") refl

store-bound_example : length (codes "Aino  ") ≤ stored_size alphanumeric 6
store-bound_example =
    store-bound alphanumeric 6 (pos 0) (codes "Aino")
      (load-store_alphanumeric 6 (pos 0) (codes "Aino") (ground arith) (codes "xyz")).0

store_signed_pd_overflow_example : store signed_number_pd 5 (pos 0) (codes "-427") ≡ none
store_signed_pd_overflow_example =
    store_signed_pd_overflow 5 (codes "427") true (omega arith) digits (omega arith)

-- A table of three texts of two bytes at address 100.
abbrev table : HostTable
table = record { iter = 3; occurs_length = 0; is_parent = false }

abbrev item : SqlVar
item = record { type = alphanumeric; length = 2; power = pos 0; addr = 100 }

abbrev storage : Memory
storage = λ a. b'9'

abbrev stored : Memory
stored = write storage 102 (codes "AB")

create_coboldata_second : create_coboldata table item 1 (codes "AB") storage ≡ some stored
unfolding create_coboldata
create_coboldata_second =
    ap (λ (o : Option Bytes). o >>= λ b. some (write storage 102 b))
      (load-store_alphanumeric 2 (pos 0) (codes "AB") (ground arith) []).0

create_coboldata-other_example : stored 104 ≡ b'9'
create_coboldata-other_example =
    create_coboldata-other table item 1 2 104 (codes "AB") storage stored (ground arith)
      (omega arith) create_coboldata_second (omega arith) (omega arith)
