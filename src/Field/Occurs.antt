-- ===== src/Field/Occurs.antt =====
-- dblib/ocesql.c: a host variable in the program's storage, and the elements of a table of them
-- (`OCCURS`): where `create_realdata` and `create_coboldata` read and write.
use cobol.Prelude.{
  >>=-eq-some, Bool, Bool-cases, Bytes, Lacks, Option, [], ap, append-nil, arith, if◌then◌else◌,
  inl, inr, length, length-append, length-replicate, length-take, ltb, ltb→lt, negsuc, none, pos,
  refl, replicate, some, suc, sym, take, zero, ℕ, ℤ, ◌*◌, ◌++◌, ◌+◌, ◌<◌, ◌>>=◌, ◌∙◌, ◌≡◌, ◌≢◌, ◌≤◌,
  ◌⊎◌,
}
use cobol.Field.Buffer.{read, read-write, read-agree, Memory, write, write_outside}
use cobol.Field.Packed.{packed_size}
use cobol.Field.Load.{load, varchar_length}
use cobol.Field.Text.{load-store_alphanumeric}
use cobol.Field.Store.{
  FieldType, store, blanks, unsigned_number, signed_number_tc, signed_number_ls, unsigned_number_pd,
  signed_number_pd, alphanumeric, japanese, alphanumeric_varying, japanese_varying, other,
}
use cobol.Field.Bounds.{stored_size, store-bound}

-- `SQLVAR`, less the two buffers that are built from the field.
pub record SqlVar : Type 0 where
  pub type : FieldType
  pub length : ℕ
  pub power : ℤ
  pub addr : ℕ

-- `_occurs_iter`, `_occurs_length`, `_occurs_is_parent`
pub record HostTable : Type 0 where
  pub iter : ℕ
  pub occurs_length : ℕ
  pub is_parent : Bool

-- `OCESQLSetHostTable`: `none` for the return value 1, which changes nothing.
unfoldable pub set_host_table : ℤ → ℤ → Bool → Option HostTable
set_host_table (negsuc i) length is_parent = none
set_host_table (pos i) (negsuc n) is_parent = none
set_host_table (pos i) (pos n) is_parent =
    some (record { iter = i; occurs_length = n; is_parent = is_parent })

-- From one element to the next: the size of the group, if the table is one of groups.
abbrev pub stride : HostTable → SqlVar → ℕ
stride t sv = if t.is_parent then t.occurs_length else sv.length

abbrev pub occurrence : HostTable → SqlVar → ℕ → ℕ
occurrence t sv index = sv.addr + index * stride t sv

-- The bytes from an address on that `create_realdata` copies for a type.
unfoldable pub copied : FieldType → ℕ → Memory → ℕ → ℕ
copied unsigned_number width m a = width
copied signed_number_tc width m a = width
copied signed_number_ls width m a = width + 1
copied unsigned_number_pd width m a = packed_size width
copied signed_number_pd width m a = packed_size width
copied alphanumeric width m a = width
copied japanese width m a = width * 2
copied alphanumeric_varying width m a = 4 + varchar_length (read m a 4)
copied japanese_varying width m a = 4 + varchar_length (read m a 4) * 2
copied other width m a = width

-- `create_realdata`: the text of an element, `none` where a block of it is too small.
unfoldable pub create_realdata : HostTable → SqlVar → ℕ → Memory → Option Bytes
unfolding copied
create_realdata t sv index m =
    let a = occurrence t sv index in
    load sv.type sv.length sv.power (read m a (copied sv.type sv.length m a))

-- `create_coboldata`
unfoldable pub create_coboldata : HostTable → SqlVar → ℕ → Bytes → Memory → Option Memory
create_coboldata t sv index retstr m =
    store sv.type sv.length sv.power retstr >>= λ b. some (write m (occurrence t sv index) b)

-- `create_coboldata_lowvalue`
unfoldable pub create_coboldata_lowvalue : HostTable → SqlVar → ℕ → Memory → Memory
create_coboldata_lowvalue t sv index m = write m (occurrence t sv index) (replicate sv.length 0)

mul_gap : (i j w : ℕ) → i < j → i * w + w ≤ j * w
mul_gap i zero w h = absurd (omega arith)
mul_gap zero (suc j) w h = omega arith
mul_gap (suc i) (suc j) w h = omega (arith, mul_gap i j w (omega arith))

apart :
    (a i j w x n : ℕ)
    → i ≢ j
    → n ≤ w
    → a + j * w ≤ x
    → x < a + j * w + n
    → (x < a + i * w) ⊎ (a + i * w + n ≤ x)
apart a i j w x n d l h k = elim (Bool-cases (ltb i j)) [
  | inl y ↦ inr (omega (arith, mul_gap i j w (ltb→lt i j y)))
  | inr y ↦ let lt : j < i = ground arith in inl (omega (arith, mul_gap j i w lt))
]

pub some-injective : {A : Type 0} {a b : A} → some a ≡ some b → a ≡ b
some-injective h = cc

pub write-apart :
    (m : Memory) (a x n : ℕ) (b : Bytes)
    → length b ≤ n
    → (x < a) ⊎ (a + n ≤ x)
    → write m a b x ≡ m x
write-apart m a x n b l (inl h) = write_outside m a x b (inl h)
write-apart m a x n b l (inr h) = write_outside m a x b (inr (omega arith))

-- A value that is stored in one element of a table leaves the bytes of every other element as they
-- were, if the elements are at least as far apart as the bytes that a field of the type takes up.
-- Between tables of single fields this asks that the type writes no more than its length.
pub create_coboldata-other :
    (t : HostTable) (sv : SqlVar) (i j x : ℕ) (retstr : Bytes) (m m' : Memory)
    → i ≢ j
    → stored_size sv.type sv.length ≤ stride t sv
    → create_coboldata t sv i retstr m ≡ some m'
    → occurrence t sv j ≤ x
    → x < occurrence t sv j + stored_size sv.type sv.length
    → m' x ≡ m x
unfolding create_coboldata
create_coboldata-other t sv i j x retstr m m' d l h lo hi =
    let (b, e, w) = >>=-eq-some (store sv.type sv.length sv.power retstr) _ h in
    let bound = store-bound sv.type sv.length sv.power retstr e in
    let a = apart sv.addr i j (stride t sv) x (stored_size sv.type sv.length) d l lo hi in
    let p : write m (occurrence t sv i) b ≡ m' = some-injective w in
    ap (λ (f : Memory). f x) (sym p)
    ∙ write-apart m (occurrence t sv i) x (stored_size sv.type sv.length) b bound a

pub read_back : (m : Memory) (a n : ℕ) (b : Bytes) → length b ≡ n → read (write m a b) a n ≡ b
read_back m a n b e = rw (← e) (read-write m a b)

pub create_coboldata-write :
    (t : HostTable) (sv : SqlVar) (i : ℕ) (s b : Bytes) (m : Memory) {m' : Memory}
    → store sv.type sv.length sv.power s ≡ some b
    → create_coboldata t sv i s m ≡ some m'
    → write m (occurrence t sv i) b ≡ m'
unfolding create_coboldata
create_coboldata-write t sv i s b m {m'} e h =
    let w : create_coboldata t sv i s m ≡ some (write m (occurrence t sv i) b) =
      rw (e, create_coboldata) refl in
    some-injective (sym w ∙ h)

-- A text that is stored in one element of a table of alphanumeric fields is read back from it cut or
-- padded with spaces to the width, also after another element has been stored, if the elements do
-- not overlap.
pub create_realdata-create_coboldata :
    (t : HostTable) (width addr i j : ℕ) (power : ℤ) (s other_s : Bytes) (m m1 m2 : Memory)
    → let sv : SqlVar = record {
      type = alphanumeric;
      length = width;
      power = power;
      addr = addr;
    } in
      i ≢ j
      → width ≤ stride t sv
      → Lacks 0 s
      → create_coboldata t sv i s m ≡ some m1
      → create_coboldata t sv j other_s m1 ≡ some m2
      → create_realdata t sv i m2 ≡ some (take width (s ++ blanks width))
unfolding create_realdata
create_realdata-create_coboldata t width addr i j power s other_s m m1 m2 d l n h k =
    let sv : SqlVar = record { type = alphanumeric; length = width; power = power; addr = addr } in
    let a : ℕ = occurrence t sv i in
    let field : Bytes = take width (s ++ blanks width) in
    let (e, back) = load-store_alphanumeric width power s n [] in
    let w : write m a field ≡ m1 = create_coboldata-write t sv i s field m e h in
    let full : length field ≡ width = omega (
      arith,
      length-take width (s ++ blanks width),
      length-append s (blanks width),
      length-replicate {A = ℕ} width b' ',
    ) in
    let agree : read m2 a width ≡ read m1 a width =
      read-agree m1 m2 a width
        (λ x lo hi. create_coboldata-other t sv j i x other_s m1 m2 (λ q. d (sym q)) l k lo hi) in
    let got : read m1 a width ≡ field = rw (← w) (read_back m a width field full) in
    rw (agree, got) (ap (load alphanumeric width power) (sym (append-nil field)) ∙ back)
