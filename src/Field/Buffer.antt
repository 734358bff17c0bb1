-- ===== src/Field/Buffer.antt =====
-- Memory that the conversions in dblib/ocesql.c read and write: zeroed blocks of a known size,
-- where a write out of bounds is a fault (`none`), and the storage of the COBOL program.
use cobol.Prelude.{
  ℕ, zero, suc, ◌+◌, ◌-◌, ◌≤◌, ◌<◌, ◌≡◌, refl, ◌⊎◌, ap, ◌∙◌, ℤ, pos, negsuc, ◌&&◌, Option, none,
  some, [], ◌∷◌, ◌++◌, arith, length, take, drop, replicate, get_or, ltb, leb, if◌then◌else◌, Bytes,
  length-append, length-drop, length-take,
}

-- `calloc(n, 1)`.
abbrev pub zeroed : ℕ → Bytes
zeroed n = replicate n 0

-- A run of the digit zero.
abbrev pub zeros : ℕ → Bytes
zeros n = replicate n b'0'

-- `memcpy(buf + offset, s, length of s)`.
unfoldable pub memcpy_at : ℤ → Bytes → Bytes → Option Bytes
memcpy_at (negsuc n) s buf = none
memcpy_at (pos i) s buf =
    if leb (i + length s) (length buf)
    then some (take i buf ++ (s ++ drop (i + length s) buf))
    else none

-- `for (z = 0; z < n; z++) buf[z] = '0'`; a negative `n` makes no round.
unfoldable pub fill_zero : ℤ → Bytes → Option Bytes
unfolding memcpy_at
fill_zero (negsuc n) buf = some buf
fill_zero (pos n) buf = memcpy_at (pos 0) (zeros n) buf

pub length-memcpy_at :
    (i : ℤ) (s buf : Bytes) {r : Bytes} → memcpy_at i s buf ≡ some r → length r ≡ length buf
unfolding memcpy_at
length-memcpy_at (negsuc n) s buf h = cc
length-memcpy_at (pos i) s buf {r} h = ground (
  arith,
  length-append (take i buf) (s ++ drop (i + length s) buf),
  length-append s (drop (i + length s) buf),
  length-take i buf,
  length-drop (i + length s) buf,
)

pub length-fill_zero :
    (n : ℤ) (buf : Bytes) {r : Bytes} → fill_zero n buf ≡ some r → length r ≡ length buf
unfolding fill_zero
length-fill_zero (negsuc n) buf h = ground arith
length-fill_zero (pos n) buf {r} h = length-memcpy_at (pos 0) (zeros n) buf h

-- The program's storage, by address.
abbrev pub Memory : Type 0
Memory = ℕ → ℕ

pub read : Memory → ℕ → ℕ → Bytes
read m a zero = []
read m a (suc n) = m a ∷ read m (a + 1) n

pub write : Memory → ℕ → Bytes → Memory
write m a s x = if leb a x && ltb x (a + length s) then get_or s (x - a) 0 else m x

pub length-read : (m : Memory) (a n : ℕ) → length (read m a n) ≡ n
unfolding read
length-read m a zero = refl
length-read m a (suc n) = ap suc (length-read m (a + 1) n)

-- A write changes nothing outside of its range.
pub write_outside :
    (m : Memory) (a x : ℕ) (s : Bytes) → (x < a) ⊎ (a + length s ≤ x) → write m a s x ≡ m x
unfolding write
write_outside m a x s h = ground arith

read-eq :
    (m : Memory) (a : ℕ) (s : Bytes)
    → ((k : ℕ) → k < length s → m (a + k) ≡ get_or s k 0)
    → read m a (length s) ≡ s
unfolding read
read-eq m a [] h = refl
read-eq m a (c ∷ s) h =
    let first : m a ≡ c = ap m (omega arith) ∙ h 0 (omega arith) in
    let rest = read-eq m (a + 1) s (λ k lt. ap m (omega arith) ∙ (h (suc k) (omega arith))) in
    cc (first, rest)

-- What is read depends only on the bytes in the range.
pub read-agree :
    (m m' : Memory) (a n : ℕ)
    → ((x : ℕ) → a ≤ x → x < a + n → m' x ≡ m x)
    → read m' a n ≡ read m a n
unfolding read
read-agree m m' a zero h = refl
read-agree m m' a (suc n) h =
    let first : m' a ≡ m a = h a (omega arith) (omega arith) in
    let rest = read-agree m m' (a + 1) n (λ x lo hi. h x (omega arith) (omega arith)) in
    cc (first, rest)

-- What was written is read back.
pub read-write : (m : Memory) (a : ℕ) (s : Bytes) → read (write m a s) a (length s) ≡ s
unfolding write
read-write m a s = read-eq (write m a s) a s (λ k lt. inside k lt)
  where
    inside : (k : ℕ) → k < length s → write m a s (a + k) ≡ get_or s k 0
    inside k lt =
        let e : a + k - a ≡ k = omega arith in ground (arith, ap (λ (j : ℕ). get_or s j 0) e)

-- The first bytes of what is read.
pub read-take :
    (m : Memory) (n a : ℕ) (b : Bytes)
    → read m a (length b) ≡ b
    → read m a (length (take n b)) ≡ take n b
unfolding read
read-take m zero a b h = refl
read-take m (suc n) a [] h = refl
read-take m (suc n) a (x ∷ b) h =
    let first : m a ≡ x = cc h in
    let rest : read m (a + 1) (length b) ≡ b = cc h in cc (first, read-take m n (a + 1) b rest)
