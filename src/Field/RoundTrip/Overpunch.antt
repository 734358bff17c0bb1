-- ===== src/Field/RoundTrip/Overpunch.antt =====
-- The sign in the last byte of a trailing-combined number.

use cobol.Prelude.{
  All, Bytes, [], ap, append_assoc, arith, drop, false, get_elem?, leb, length, length-append, pos,
  refl, some, suc, sym, true, zero, ℕ, ◌++◌, ◌+◌, ◌-◌, ◌<◌, ◌∙◌, ◌∷◌, ◌≡◌, ◌≢◌,
}
use cobol.Util.{cstr, type_tc_is_positive, negative_final_number}
use cobol.Field.Buffer.{zeroed, memcpy_at}
use cobol.Field.Packed.{IsDigit}
use cobol.Field.Store.{overpunch}
use cobol.Field.Load.{split_last}
use cobol.Field.Digits.{Digits-ne-zero, take_left, drop_left}

-- The table, by its index.
table_entry : (k : ℕ) → k < 10 → get_elem? negative_final_number k ≡ some (b'p' + k)
table_entry zero h = refl
table_entry (suc zero) h = refl
table_entry (suc (suc zero)) h = refl
table_entry (suc (suc (suc zero))) h = refl
table_entry (suc (suc (suc (suc zero)))) h = refl
table_entry (suc (suc (suc (suc (suc zero))))) h = refl
table_entry (suc (suc (suc (suc (suc (suc zero)))))) h = refl
table_entry (suc (suc (suc (suc (suc (suc (suc zero))))))) h = refl
table_entry (suc (suc (suc (suc (suc (suc (suc (suc zero)))))))) h = refl
table_entry (suc (suc (suc (suc (suc (suc (suc (suc (suc zero))))))))) h = refl
table_entry (suc (suc (suc (suc (suc (suc (suc (suc (suc (suc n)))))))))) h = absurd (omega arith)

is_positive_entry : (k : ℕ) → k < 10 → type_tc_is_positive (b'p' + k) ≡ (false, b'0' + k)
unfolding type_tc_is_positive
is_positive_entry k h = ground arith

pub is_positive-digit : (c : ℕ) → IsDigit c → type_tc_is_positive c ≡ (true, c)
unfolding type_tc_is_positive
is_positive-digit c h = ground arith

-- A list that is not empty ends in a last element.
split_end : (s : Bytes) → 0 < length s → (w : Bytes) × (d : ℕ) × (s ≡ w ++ d ∷ [])
split_end [] h = absurd (omega arith)
split_end (c ∷ []) h = ([], c, refl)
split_end (c ∷ d ∷ s) h =
    let (w, e, p) = split_end (d ∷ s) (omega arith) in (c ∷ w, e, ap (◌∷◌ c) p)

get_elem?-append : (w s : Bytes) (d : ℕ) → get_elem? (w ++ d ∷ s) (length w) ≡ some d
get_elem?-append [] s d = refl
get_elem?-append (c ∷ w) s d = get_elem?-append w s d

cstr-append : (s : Bytes) (n : ℕ) → All (λ c. c ≢ 0) s → cstr (s ++ zeroed n) ≡ s
unfolding cstr
cstr-append [] zero h = refl
cstr-append [] (suc n) h = refl
cstr-append (c ∷ s) n (hc, hs) = ground (arith, cstr-append s n hs)

All-end : (w : Bytes) (d : ℕ) → All IsDigit (w ++ d ∷ []) → IsDigit d
All-end [] d h = h.0
All-end (c ∷ w) d h = All-end w d h.1

-- The byte for a last digit replaces it, and `split_last` undoes that.
memcpy_at-end :
    (w t : Bytes) (d x : ℕ) → memcpy_at (pos (length w)) (x ∷ []) (w ++ d ∷ t) ≡ some (w ++ x ∷ t)
unfolding memcpy_at
memcpy_at-end w t d x = ground (
  arith,
  length-append w (d ∷ t),
  take_left w (d ∷ t) (length w) refl,
  ap (λ (k : ℕ). drop k (w ++ d ∷ t)) (length_end w d),
  ap (drop (length (w ++ d ∷ []))) (append_assoc w (d ∷ []) t),
  drop_left (w ++ d ∷ []) t (length (w ++ d ∷ [])) refl,
)
  where
    length_end : (w : Bytes) (d : ℕ) → length w + 1 ≡ length (w ++ d ∷ [])
    length_end w d = omega (arith, length-append w (d ∷ []))

split_last-digit :
    (w : Bytes) (k : ℕ) → k < 10 → split_last (w ++ (b'p' + k) ∷ []) ≡ (false, w ++ (b'0' + k) ∷ [])
unfolding split_last
split_last-digit [] k h = rw (is_positive_entry k h)
split_last-digit (c ∷ []) k h = rw (is_positive_entry k h)
split_last-digit (c ∷ d ∷ w) k h = rw (split_last-digit (d ∷ w) k h)

pub split_last-Digits : (s : Bytes) → All IsDigit s → split_last s ≡ (true, s)
unfolding split_last
split_last-Digits [] h = refl
split_last-Digits (c ∷ []) h = rw (is_positive-digit c h.0)
split_last-Digits (c ∷ d ∷ s) (hc, hs) = rw (split_last-Digits (d ∷ s) hs)

length-end : (w : Bytes) (d : ℕ) → length (w ++ d ∷ []) ≡ length w + 1
length-end w d = length-append w (d ∷ [])

overpunch-end :
    (w : Bytes) (k n : ℕ)
    → k < 10
    → All IsDigit (w ++ (b'0' + k) ∷ [])
    → overpunch ((w ++ (b'0' + k) ∷ []) ++ zeroed n) ≡ some ((w ++ (b'p' + k) ∷ []) ++ zeroed n)
unfolding overpunch
overpunch-end w k n h ds =
    let s = w ++ (b'0' + k) ∷ [] in
    let c : cstr (s ++ zeroed n) ≡ s = cstr-append s n (Digits-ne-zero s ds) in
    let i : length s ≡ suc (length w) = omega (arith, length-end w (b'0' + k)) in
    let tested : leb b'0' (b'0' + k) ≡ true = ground arith in
    let index : b'0' + k - b'0' ≡ k = omega arith in
    rw
      (
        c,
        i,
        append_assoc w ((b'0' + k) ∷ []) (zeroed n),
        get_elem?-append w (zeroed n) (b'0' + k),
        tested,
        index,
        table_entry k h,
      )
      (memcpy_at-end w (zeroed n) (b'0' + k) (b'p' + k)
        ∙ ap some (sym (append_assoc w ((b'p' + k) ∷ []) (zeroed n))))

-- Digits that end in an overpunched one: as long as the digits, and read as negative.
pub overpunch-split_last :
    (s : Bytes) (n : ℕ)
    → All IsDigit s
    → 0 < length s
    → (t : Bytes) × (overpunch (s ++ zeroed n) ≡ some (t ++ zeroed n))
      × (length t ≡ length s)
      × (split_last t ≡ (false, s))
overpunch-split_last s n h some_digit =
    let (w, d, e) = split_end s some_digit in
    let hd : IsDigit d = All-end w d (rw e at h) in
    let k : ℕ = d - b'0' in
    let d' : d ≡ b'0' + k = omega arith in
    let s' : s ≡ w ++ (b'0' + k) ∷ [] = e ∙ ap (λ (x : ℕ). w ++ x ∷ []) d' in
    (
      w ++ (b'p' + k) ∷ [],
      rw s' (overpunch-end w k n (omega arith) (rw s' at h)),
      length-end w (b'p' + k) ∙ sym (length-end w d) ∙ ap length (sym e),
      split_last-digit w k (omega arith) ∙ ap (λ (x : Bytes). (false, x)) (sym s'),
    )
