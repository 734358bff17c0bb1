-- ===== src/Field/Packed.antt =====
-- Packed decimal (COMP-3): the nibble loops of `create_realdata` and `create_coboldata` in
-- dblib/ocesql.c. A loop recurs on the rounds that are left: the first is the one with `skip`, the
-- last the one with one round left.
use cobol.Prelude.{
  All, Bool, Bool-cases, Bytes, Option, [], arith, false, if◌then◌else◌, inl, inr, length, ltb,
  none, refl, some, suc, true, zero, ℕ, ◌%◌, ◌*◌, ◌++◌, ◌+◌, ◌/◌, ◌<◌, ◌==◌, ◌>>=◌, ◌∷◌, ◌≡◌, ◌≤◌,
}

-- `(int)ceil(((double)length + 1) / 2)`: the bytes of a field of so many digits.
abbrev pub packed_size : ℕ → ℕ
packed_size width = (width + 2) / 2

-- `skip_first`: a field of an even number of digits begins with half a byte.
abbrev pub skip_first : ℕ → Bool
skip_first width = (width + 1) % 2 == 1

-- `*ptr` and `ptr++`; the end of the block is a fault.
pub next : Bytes → Option (ℕ × Bytes)
next [] = none
next (c ∷ s) = some (c, s)

pub upper : Bool → Bytes → Option (ℕ × Bytes)
unfolding next
upper true ptr = some (0, ptr)
upper false ptr = do (c, rest) ← next ptr; some (c % 16, rest)

-- The digits at `ptr` as packed bytes, the last with the half byte `sign`.
unfoldable pub pack : ℕ → Bool → ℕ → Bytes → Option Bytes
unfolding upper next
pack zero skip sign ptr = some []
pack (suc zero) skip sign ptr = do (hi, rest) ← upper skip ptr; some ((hi * 16 + sign) ∷ [])
pack (suc (suc n)) skip sign ptr = do
  (hi, rest) ← upper skip ptr
  (c, rest') ← next rest
  bytes ← pack (suc n) false sign rest'
  some ((hi * 16 + c % 16) ∷ bytes)

-- `com_sprintf(val, 2, "%d", nibble)`: two characters do not fit into `val` with their NUL.
digit : ℕ → Option ℕ
digit n = if ltb n 10 then some (b'0' + n) else none

upper_digit : Bool → ℕ → Option Bytes
unfolding digit
upper_digit true b = some []
upper_digit false b = do d ← digit (b / 16 % 16); some (d ∷ [])

-- The digits of packed bytes, and the half byte behind them.
pub unpack : ℕ → Bool → Bytes → Option (Bytes × ℕ)
unfolding upper_digit next digit
unpack zero skip data' = some ([], 0)
unpack (suc zero) skip data' = do (b, rest) ← next data'; hi ← upper_digit skip b; some (hi, b % 16)
unpack (suc (suc n)) skip data' = do
  (b, rest) ← next data'
  hi ← upper_digit skip b
  lo ← digit (b % 16)
  (digits, sign) ← unpack (suc n) false rest
  some (hi ++ (lo ∷ digits), sign)

abbrev pub IsDigit : ℕ → Type 0
IsDigit c = (b'0' ≤ c) × (c ≤ b'9')

-- `pack` succeeds on `ds` and `unpack` gives the digits and the half byte back.
abbrev pub Packs : ℕ → Bool → ℕ → Bytes → Bytes → Type 0
Packs n skip sign ds tail =
    (bytes : Bytes) × (pack n skip sign (ds ++ tail) ≡ some bytes)
    × (unpack n skip bytes ≡ some (ds, sign))
    × (length bytes ≡ n)

pack-odd :
    (ds tail : Bytes) (n sign : ℕ)
    → length ds + 1 ≡ n * 2
    → sign < 16
    → All IsDigit ds
    → Packs n false sign ds tail
unfolding pack unpack
pack-odd [] tail n sign e h d = absurd (omega arith)
pack-odd (c ∷ []) tail zero sign e h d = absurd (omega arith)
pack-odd (c ∷ []) tail (suc zero) sign e h d = ((c % 16 * 16 + sign) ∷ [], refl, ground arith, refl)
pack-odd (c ∷ []) tail (suc (suc n)) sign e h d = absurd (omega arith)
pack-odd (c ∷ x ∷ ds) tail zero sign e h d = absurd (omega arith)
pack-odd (c ∷ x ∷ ds) tail (suc zero) sign e h d = absurd (omega arith)
pack-odd (c ∷ x ∷ ds) tail (suc (suc n)) sign e h (hc, (hx, hs)) =
    let (bytes, p, u, l) = pack-odd ds tail (suc n) sign (omega arith) h hs in
    ((c % 16 * 16 + x % 16) ∷ bytes, ground arith, ground arith, ground arith)

pack-even :
    (ds tail : Bytes) (n sign : ℕ)
    → length ds + 2 ≡ n * 2
    → sign < 16
    → All IsDigit ds
    → Packs n true sign ds tail
unfolding pack unpack
pack-even [] tail zero sign e h d = absurd (omega arith)
pack-even [] tail (suc zero) sign e h d = ((0 * 16 + sign) ∷ [], refl, ground arith, refl)
pack-even [] tail (suc (suc n)) sign e h d = absurd (omega arith)
pack-even (c ∷ ds) tail zero sign e h d = absurd (omega arith)
pack-even (c ∷ ds) tail (suc zero) sign e h d = absurd (omega arith)
pack-even (c ∷ ds) tail (suc (suc n)) sign e h (hc, hs) =
    let (bytes, p, u, l) = pack-odd ds tail (suc n) sign (omega arith) h hs in
    ((0 * 16 + c % 16) ∷ bytes, ground arith, ground arith, ground arith)

-- The digits of a number of the field's width and a sign nibble are packed into the field's bytes,
-- the first half byte left out for an even width, and come out again when these are unpacked.
pub pack-Packs :
    (width : ℕ) (ds tail : Bytes) (sign : ℕ)
    → length ds ≡ width
    → sign < 16
    → All IsDigit ds
    → Packs (packed_size width) (skip_first width) sign ds tail
pack-Packs width ds tail sign l h d = elim (Bool-cases (skip_first width)) [
  | inl e ↦ rw e (pack-even ds tail (packed_size width) sign (ground arith) h d)
  | inr e ↦ rw e (pack-odd ds tail (packed_size width) sign (ground arith) h d)
]
