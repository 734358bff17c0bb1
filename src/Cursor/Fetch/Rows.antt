-- ===== src/Cursor/Fetch/Rows.antt =====
-- dblib/ocesql.c: what the loops over the rows of a result leave in the program's storage. The
-- loops write one element of a host variable after the other; such an element is a cell here.
use cobol.Prelude.{
  take, >>=-eq-some, All, All-map, Bytes, List, Option, [], ap, arith, length, length-replicate,
  replicate, some, suc, sym, zero, ℕ, ◌++◌, ◌+◌, ◌<◌, ◌>>=◌, ◌∙◌, ◌∷◌, ◌≡◌, ◌≤◌, ◌⊎◌,
}
use cobol.Field.Buffer.{Memory, read-take, read, write, read-write, read-agree}
use cobol.Field.Store.{store, FieldType, signed_number_tc}
use cobol.Field.Bounds.{stored_size, store-bound}
use cobol.Field.Occurs.{
  SqlVar, HostTable, occurrence, create_coboldata, create_coboldata_lowvalue,
  create_coboldata-write, write-apart, some-injective, read_back,
}
use cobol.Cursor.Fetch.{write_row, write_rows, low_row, low_rows}

-- The bytes of a field itself, which are one less than a store changes where it writes a NUL behind.
abbrev pub field_size : FieldType → ℕ → ℕ
field_size signed_number_tc width = width
field_size type width = stored_size type width

length-take-bound : (n : ℕ) (b : Bytes) → length (take n b) ≤ n
length-take-bound zero b = omega arith
length-take-bound (suc n) [] = omega arith
length-take-bound (suc n) (x ∷ b) = omega (arith, length-take-bound n b)

-- A variable that takes the value of a row and a column, and one that has no row left.
pub data Cell : Type 0 where
  filled : SqlVar → ℕ → ℕ → Cell
  low : SqlVar → ℕ → Cell

unfoldable pub filled_cells : ℕ → ℕ → ℕ → List SqlVar → List Cell
filled_cells j zero col vs = []
filled_cells j (suc n) col [] = []
filled_cells j (suc n) col (sv ∷ vs) = filled sv j col ∷ filled_cells j n (col + 1) vs

unfoldable pub low_cells : ℕ → ℕ → List SqlVar → List Cell
low_cells j zero vs = []
low_cells j (suc n) [] = []
low_cells j (suc n) (sv ∷ vs) = low sv j ∷ low_cells j n vs

-- The cells of `k` rows from row `j` on.
unfoldable pub filled_table : ℕ → List SqlVar → ℕ → ℕ → List Cell
unfolding filled_cells
filled_table n vs zero j = []
filled_table n vs (suc k) j = filled_cells j n 0 vs ++ filled_table n vs k (j + 1)

unfoldable pub low_table : ℕ → List SqlVar → ℕ → ℕ → List Cell
unfolding low_cells
low_table n vs zero j = []
low_table n vs (suc k) j = low_cells j n vs ++ low_table n vs k (j + 1)

module _ (t : HostTable) where
  -- The bytes that a cell may take up.
  abbrev pub start : Cell → ℕ
  start (filled sv j col) = occurrence t sv j
  start (low sv j) = occurrence t sv j

  abbrev pub size : Cell → ℕ
  size (filled sv j col) = stored_size sv.type sv.length
  size (low sv j) = sv.length

  abbrev pub Outside : ℕ → Cell → Type 0
  Outside x c = (x < start c) ⊎ (start c + size c ≤ x)

  -- The bytes of the cell's own field. A number with a trailing combined sign is written with a NUL
  -- behind its field.
  abbrev pub own : Cell → ℕ
  own (filled sv j col) = field_size sv.type sv.length
  own (low sv j) = sv.length

  abbrev pub Apart : Cell → Cell → Type 0
  Apart c e = (start c + own c ≤ start e) ⊎ (start e + size e ≤ start c)

  -- Nothing that is written for a later cell falls into the field of an earlier one.
  unfoldable pub IsKept : List Cell → Type 0
  IsKept [] = Unit
  IsKept (c ∷ cs) = All (Apart c) cs × IsKept cs

  module _ (value : ℕ → ℕ → Option Bytes) where
    -- The program finds in a cell's field what the field type makes of the value, or zeros.
    unfoldable pub IsWritten : Memory → Cell → Type 0
    IsWritten m (filled sv j col) =
        (s : Bytes) × (b : Bytes) × (value j col ≡ some s)
        × (store sv.type sv.length sv.power s ≡ some b)
        × (read m (occurrence t sv j) (length (take (field_size sv.type sv.length) b))
            ≡ take (field_size sv.type sv.length) b)
    IsWritten m (low sv j) = read m (occurrence t sv j) sv.length ≡ replicate sv.length 0

    write_cell : Cell → Memory → Option Memory
    write_cell (filled sv j col) m = value j col >>= λ s. create_coboldata t sv j s m
    write_cell (low sv j) m = some (create_coboldata_lowvalue t sv j m)

    write_cells : List Cell → Memory → Option Memory
    unfolding write_cell
    write_cells [] m = some m
    write_cells (c ∷ cs) m = write_cell c m >>= λ m'. write_cells cs m'

    write_cell_lem :
        (c : Cell) (m : Memory) {m' : Memory}
        → write_cell c m ≡ some m'
        → IsWritten m' c × ((x : ℕ) → Outside x c → m' x ≡ m x)
    unfolding write_cell IsWritten create_coboldata create_coboldata_lowvalue
    write_cell_lem (filled sv j col) m {m'} h =
        let (s, e, h1) = >>=-eq-some (value j col) _ h in
        let (b, f, h2) = >>=-eq-some (store sv.type sv.length sv.power s) _ h1 in
        let w : write m (occurrence t sv j) b ≡ m' = create_coboldata-write t sv j s b m f h1 in
        let bound = store-bound sv.type sv.length sv.power s f in
        rw (← w) (
          (
            s,
            b,
            e,
            f,
            read-take (write m (occurrence t sv j) b) (field_size sv.type sv.length)
                (occurrence t sv j) b (read-write m (occurrence t sv j) b),
          ),
          λ x o. write-apart m (occurrence t sv j) x (stored_size sv.type sv.length) b bound o,
        )
    write_cell_lem (low sv j) m {m'} h =
        let zeros : Bytes = replicate sv.length 0 in
        let w : write m (occurrence t sv j) zeros ≡ m' = some-injective h in
        let l : length zeros ≡ sv.length = length-replicate sv.length 0 in
        rw (← w) (
          read_back m (occurrence t sv j) sv.length zeros l,
          λ x o. write-apart m (occurrence t sv j) x sv.length zeros (omega (arith, l)) o,
        )

    IsWritten-agree :
        (c : Cell) (m m' : Memory)
        → IsWritten m c
        → ((x : ℕ) → start c ≤ x → x < start c + own c → m' x ≡ m x)
        → IsWritten m' c
    unfolding IsWritten
    IsWritten-agree (filled sv j col) m m' (s, b, e, f, r) h = (
      s,
      b,
      e,
      f,
      read-agree m m' (occurrence t sv j) (length (take (field_size sv.type sv.length) b))
            (λ x lo hi.
              h x lo (omega (arith, hi, length-take-bound (field_size sv.type sv.length) b)))
          ∙ r,
    )
    IsWritten-agree (low sv j) m m' r h = read-agree m m' (occurrence t sv j) sv.length h ∙ r

    write_cells-Outside :
        (cs : List Cell) (m : Memory) (x : ℕ) {m' : Memory}
        → All (Outside x) cs
        → write_cells cs m ≡ some m'
        → m' x ≡ m x
    unfolding write_cells
    write_cells-Outside [] m x o h = ap (λ (f : Memory). f x) (sym (some-injective h))
    write_cells-Outside (c ∷ cs) m x (o, os) h =
        let (m1, e, h1) = >>=-eq-some (write_cell c m) _ h in
        write_cells-Outside cs m1 x os h1 ∙ (write_cell_lem c m e).1 x o

    write_cells-IsWritten :
        (cs : List Cell) (m : Memory) {m' : Memory}
        → IsKept cs
        → write_cells cs m ≡ some m'
        → All (IsWritten m') cs
    unfolding write_cells IsKept
    write_cells-IsWritten [] m d h = tt
    write_cells-IsWritten (c ∷ cs) m {m'} (a, d) h =
        let (m1, e, h1) = >>=-eq-some (write_cell c m) _ h in
        (
          IsWritten-agree c m1 m' (write_cell_lem c m e).0 (λ x lo hi.
              write_cells-Outside cs m1 x (All-map (Apart c) (Outside x) (λ e a. omega arith) cs a)
                h1),
          write_cells-IsWritten cs m1 d h1,
        )

    -- The loops over columns and rows write their cells in order.
    write_row-write_cells :
        (n j col : ℕ) (vs : List SqlVar) (m : Memory) {m' : Memory}
        → write_row t (value j) j n col vs m ≡ some m'
        → write_cells (filled_cells j n col vs) m ≡ some m'
    unfolding write_row write_cells write_cell filled_cells
    write_row-write_cells zero j col vs m h = h
    write_row-write_cells (suc n) j col [] m h = cc
    write_row-write_cells (suc n) j col (sv ∷ vs) m h =
        let (s, e, h1) = >>=-eq-some (value j col) _ h in
        let (m1, f, h2) = >>=-eq-some (create_coboldata t sv j s m) _ h1 in
        rw (e, f) (write_row-write_cells n j (col + 1) vs m1 h2)

    low_row-write_cells :
        (n j : ℕ) (vs : List SqlVar) (m : Memory) {m' : Memory}
        → low_row t j n vs m ≡ some m'
        → write_cells (low_cells j n vs) m ≡ some m'
    unfolding low_row write_cells write_cell low_cells
    low_row-write_cells zero j vs m h = h
    low_row-write_cells (suc n) j [] m h = cc
    low_row-write_cells (suc n) j (sv ∷ vs) m h =
        low_row-write_cells n j vs (create_coboldata_lowvalue t sv j m) h

    write_cells-append :
        (cs es : List Cell) (m : Memory) {m1 m2 : Memory}
        → write_cells cs m ≡ some m1
        → write_cells es m1 ≡ some m2
        → write_cells (cs ++ es) m ≡ some m2
    unfolding write_cells
    write_cells-append [] es m h k = rw (some-injective h) k
    write_cells-append (c ∷ cs) es m h k =
        let (m', e, h1) = >>=-eq-some (write_cell c m) _ h in
        rw (e) (write_cells-append cs es m' h1 k)

    write_rows-write_cells :
        (n : ℕ) (vs : List SqlVar) (k j : ℕ) (m : Memory) {m' : Memory}
        → write_rows t value n vs k j m ≡ some m'
        → write_cells (filled_table n vs k j) m ≡ some m'
    unfolding write_rows write_cells filled_table
    write_rows-write_cells n vs zero j m h = h
    write_rows-write_cells n vs (suc k) j m h =
        let (m1, e, h1) = >>=-eq-some (write_row t (value j) j n 0 vs m) _ h in
        write_cells-append (filled_cells j n 0 vs) (filled_table n vs k (j + 1)) m
          (write_row-write_cells n j 0 vs m e) (write_rows-write_cells n vs k (j + 1) m1 h1)

    low_rows-write_cells :
        (n : ℕ) (vs : List SqlVar) (k j : ℕ) (m : Memory) {m' : Memory}
        → low_rows t n vs k j m ≡ some m'
        → write_cells (low_table n vs k j) m ≡ some m'
    unfolding low_rows write_cells low_table
    low_rows-write_cells n vs zero j m h = h
    low_rows-write_cells n vs (suc k) j m h =
        let (m1, e, h1) = >>=-eq-some (low_row t j n vs m) _ h in
        write_cells-append (low_cells j n vs) (low_table n vs k (j + 1)) m
          (low_row-write_cells n j vs m e) (low_rows-write_cells n vs k (j + 1) m1 h1)

    -- Rows of values, behind them rows of zeros.
    pub write_rows-IsWritten :
        (n : ℕ) (vs : List SqlVar) (rows rest : ℕ) (m : Memory) {m1 m2 : Memory}
        → IsKept (filled_table n vs rows 0 ++ low_table n vs rest rows)
        → write_rows t value n vs rows 0 m ≡ some m1
        → low_rows t n vs rest rows m1 ≡ some m2
        → All (IsWritten m2) (filled_table n vs rows 0 ++ low_table n vs rest rows)
    write_rows-IsWritten n vs rows rest m {m1} d h k =
        write_cells-IsWritten (filled_table n vs rows 0 ++ low_table n vs rest rows) m d (
          write_cells-append (filled_table n vs rows 0) (low_table n vs rest rows) m
            (write_rows-write_cells n vs rows 0 m h) (low_rows-write_cells n vs rest rows m1 k))

    pub write_row-IsWritten :
        (n : ℕ) (vs : List SqlVar) (m : Memory) {m' : Memory}
        → IsKept (filled_cells 0 n 0 vs)
        → write_row t (value 0) 0 n 0 vs m ≡ some m'
        → All (IsWritten m') (filled_cells 0 n 0 vs)
    write_row-IsWritten n vs m d h =
        write_cells-IsWritten (filled_cells 0 n 0 vs) m d (write_row-write_cells n 0 0 vs m h)
