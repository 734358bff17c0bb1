-- ===== src/Precompiler/Fields/Groups.antt =====
-- What `get_host_group_length` and `get_host_group_table_info` of ocesql/ppout.c compute.
use cobol.Prelude.{
  List, [], ap, arith, if◌then◌else◌, ltb_ℤ, negsuc, pos, refl, suc, zero, ℕ, ℤ, ◌+◌, ◌∙◌, ◌∷◌, ◌≡◌,
}
use Prim.Native.Nat.{min}
use cobol.Precompiler.Fields.{
  CbField, FieldTree, no_field, field, group_part, get_host_group_length, next_iteration,
  get_host_group_table_info,
}

-- The fields of a list of sisters.
pub sisters : FieldTree → List CbField
sisters no_field = []
sisters (field f children sister) = f ∷ sisters sister

-- The sum of the lengths.
pub total : List CbField → ℕ
total [] = 0
total (f ∷ fs) = group_part f + total fs

pub get_host_group_length_lem :
    (t : FieldTree) (n : ℕ) → get_host_group_length t n ≡ n + total (sisters t)
unfolding get_host_group_length sisters total
get_host_group_length_lem no_field n = omega arith
get_host_group_length_lem (field f children sister) n =
    omega (arith, get_host_group_length_lem sister (n + group_part f))

-- The least of `n` and the numbers of times that the fields occur.
pub least : ℕ → List CbField → ℕ
least n [] = n
least n (f ∷ fs) = min f.occurs (least n fs)

-- What is known of a table: nothing without a field, and the least number of its fields.
pub table_of : List CbField → ℤ
table_of [] = negsuc 0
table_of (f ∷ fs) = pos (least f.occurs fs)

least-min : (m n : ℕ) (fs : List CbField) → least (min m n) fs ≡ min m (least n fs)
unfolding least
least-min m n [] = refl
least-min m n (f ∷ fs) = omega (arith, least-min m n fs)

next_iteration-pos : (f : CbField) (n : ℕ) → next_iteration f (pos n) ≡ pos (min f.occurs n)
next_iteration-pos f n = go f.occurs
  where
    go :
        (o : ℕ)
        → (elim o [
          | zero ↦ pos 0
          | suc m ↦ if ltb_ℤ (pos (suc m)) (pos n) then pos (suc m) else pos n
        ])
          ≡ pos (min o n)
    go zero = ap pos (omega arith)
    go (suc m) = ground arith

info_pos :
    (t : FieldTree) (k n : ℕ)
    → get_host_group_table_info t (pos k) n ≡ (pos (least k (sisters t)), n + total (sisters t))
unfolding get_host_group_table_info sisters total least
info_pos no_field k n = ground arith
info_pos (field f children sister) k n =
    let l : least (min f.occurs k) (sisters sister) ≡ min f.occurs (least k (sisters sister)) =
      least-min f.occurs k (sisters sister) in
    let m : n + group_part f + total (sisters sister)
        ≡ n + (group_part f + total (sisters sister)) =
      omega arith in
    ap (λ i. get_host_group_table_info sister i (n + group_part f)) (next_iteration-pos f k)
    ∙ (info_pos sister (min f.occurs k) (n + group_part f) ∙ cc (l, m))

-- Of a group that does not occur itself, the iteration is the least number of times that a field
-- occurs, 0 if one of them does not, and -1 without any; the length is the sum of the fields'.
pub get_host_group_table_info_lem :
    (t : FieldTree)
    → get_host_group_table_info t (negsuc 0) 0 ≡ (table_of (sisters t), total (sisters t))
unfolding get_host_group_table_info sisters table_of total
get_host_group_table_info_lem no_field = refl
get_host_group_table_info_lem (field f children sister) =
    ap (λ i. get_host_group_table_info sister i (0 + group_part f)) (first f.occurs)
    ∙ (info_pos sister f.occurs (0 + group_part f)
        ∙ ap (λ k. (pos (least f.occurs (sisters sister)), k)) (omega arith))
  where
    first : (o : ℕ) → (elim o [ zero ↦ pos 0 | suc m ↦ pos (suc m) ]) ≡ pos o
    first zero = refl
    first (suc m) = refl
