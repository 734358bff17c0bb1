-- ===== src/Precompiler/Filler/Sizes.antt =====
-- ocesql/ppout.c: the sizes that `sql_string` writes in the first line of an item.
use cobol.Prelude.{
  Bool, Bytes, Lacks, List, [], ap, append_assoc, arith, codes, drop, false, get_or, if◌then◌else◌,
  length, length-append, ltb, refl, sym, true, ℕ, ◌*◌, ◌++◌, ◌+◌, ◌-◌, ◌<◌, ◌∙◌, ◌∷◌, ◌≡◌,
}
use cobol.Precompiler.Filler.{quote, sq_count, opening, marked, item_size}
use cobol.Precompiler.Filler.Lines.{
  after_quote, until_quote, after_quote-append, until_quote-append,
}

-- The size that the first line of an item says: the digits in its columns 29 to 31.
unfoldable pub digits_value : Bytes → ℕ
digits_value s = (get_or s 0 0 - 48) * 100 + (get_or s 1 0 - 48) * 10 + (get_or s 2 0 - 48)

unfoldable pub declared_size : List Bytes → ℕ
unfolding digits_value
declared_size [] = 0
declared_size (l ∷ ls) = digits_value (drop 28 l)

abbrev pub IsSize : Bytes → Type 0
IsSize size = (length size ≡ 3) × Lacks quote size

pub sq_count-IsSize : (n : ℕ) → IsSize (sq_count n)
unfolding sq_count
sq_count-IsSize n = ground arith

pub sq_count-digits : (n : ℕ) → n < 256 → digits_value (sq_count n) ≡ n
unfolding sq_count digits_value
sq_count-digits n h = ground arith

pub item_size-IsSize : (s : Bytes) → IsSize (item_size s)
unfolding item_size
item_size-IsSize s = ground (arith, sq_count-IsSize (length s))

pub item_size-digits :
    (s : Bytes) → digits_value (item_size s) ≡ (if ltb (length s) 256 then length s else 256)
unfolding item_size digits_value
item_size-digits s = ground (arith, sq_count-digits (length s))

-- The first line, marked or not.
abbrev pub said : Bool → Bytes → Bytes
said short size = if short then codes "255" else size

pub said-Lacks : (short : Bool) (size : Bytes) → Lacks quote size → Lacks quote (said short size)
said-Lacks true size h = ground arith
said-Lacks false size h = h

pub first_text :
    (short : Bool) (size t : Bytes)
    → length size ≡ 3
    → (marked short (opening size ++ t) ≡ opening (said short size) ++ t)
      × (length (marked short (opening size ++ t)) ≡ length (opening size ++ t))
      × (digits_value (drop 28 (marked short (opening size ++ t)))
          ≡ (if short then 255 else digits_value size))
unfolding marked digits_value
first_text true (a ∷ b ∷ c ∷ []) t h = (refl, refl, refl)
first_text false (a ∷ b ∷ c ∷ []) t h = (refl, refl, refl)
first_text short [] t h = absurd (omega (arith, h))
first_text short (a ∷ []) t h = absurd (omega (arith, h))
first_text short (a ∷ b ∷ []) t h = absurd (omega (arith, h))
first_text short (a ∷ b ∷ c ∷ d ∷ s) t h = absurd (omega (arith, h))

-- The literal of the first line.
pub opening-literals :
    (size piece d : Bytes)
    → Lacks quote size
    → Lacks quote piece
    → until_quote (after_quote (opening size ++ (piece ++ (quote ∷ d)))) ≡ piece
unfolding after_quote
opening-literals size piece d h k =
    let t = piece ++ (quote ∷ d) in
    let e : after_quote ((size ++ (codes ") VALUE " ++ (quote ∷ []))) ++ t) ≡ t =
      ap after_quote (append_assoc size (codes ") VALUE " ++ (quote ∷ [])) t)
      ∙ after_quote-append size ((codes ") VALUE " ++ (quote ∷ [])) ++ t) h in
    ap until_quote e ∙ until_quote-append piece d k

pub two_taken : (a b r : Bytes) {r' s : Bytes} → a ++ r' ≡ s → b ++ r ≡ r' → (a ++ b) ++ r ≡ s
two_taken a b r h k = append_assoc a b r ∙ ap (λ (x : Bytes). a ++ x) k ∙ h

pub length-taken : (a r s : Bytes) → a ++ r ≡ s → length a + length r ≡ length s
length-taken a r s h = sym (length-append a r) ∙ ap (λ (x : Bytes). length x) h
