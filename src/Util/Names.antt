-- ===== src/Util/Names.antt =====
-- Names in fixed-width COBOL fields: `oc_strndup` and `get_str_without_after_space` together.
use cobol.Prelude.{
  ℕ, zero, suc, ◌≡◌, ◌≢◌, refl, pos, some, [], ◌∷◌, ◌++◌, append-nil, arith, length, take,
  replicate, Bytes, All,
}
use cobol.Util.{oc_strndup, until_space, get_str_without_after_space, cstr}

-- A byte that may stand in a name: neither the terminator nor a space.
abbrev pub IsNameByte : ℕ → Type 0
IsNameByte c = (c ≢ 0) × (c ≢ b' ')

until_space-append : (s t : Bytes) → All IsNameByte s → until_space (s ++ t) ≡ s ++ until_space t
unfolding until_space
until_space-append [] t h = refl
until_space-append (c ∷ s) t (hc, hs) = ground (arith, until_space-append s t hs)

pub until_space-padded :
    (s : Bytes) (n : ℕ) → All IsNameByte s → until_space (s ++ replicate n b' ') ≡ s
unfolding until_space
until_space-padded s zero h = ground (arith, until_space-append s [] h, append-nil s)
until_space-padded s (suc n) h =
    ground (arith, until_space-append s (replicate (suc n) b' ') h, append-nil s)

take-replicate : (n : ℕ) (c : ℕ) → take n (replicate n c) ≡ replicate n c
take-replicate zero c = refl
take-replicate (suc n) c = ground (arith, take-replicate n c)

take_all : (s : Bytes) → take (length s) s ≡ s
take_all [] = refl
take_all (c ∷ s) = ground (arith, take_all s)

-- A name of non-space bytes that a COBOL field holds with `n` trailing spaces is read back
-- unchanged, whatever the width of the field.
pub name_of_field :
    (s : Bytes) (n : ℕ)
    → All IsNameByte s
    → let field = s ++ replicate n b' ' in
      get_str_without_after_space (oc_strndup (some field) (pos (length field))) ≡ some s
unfolding get_str_without_after_space oc_strndup
name_of_field s n h = ground (arith, take_all (s ++ replicate n b' '), until_space-padded s n h)

pub until_space-IsName : (s : Bytes) → All IsNameByte (until_space s)
unfolding until_space
until_space-IsName [] = tt
until_space-IsName (c ∷ s) = ground (arith, until_space-IsName s)

pub cstr_lem : (s : Bytes) → All (λ c. c ≢ 0) s → cstr s ≡ s
unfolding cstr
cstr_lem [] h = refl
cstr_lem (c ∷ s) (hc, hs) = ground (arith, cstr_lem s hs)
