-- ===== src/Precompiler/Calls/Closed.antt =====
-- The lines of ocesql/ppout.c are whole calls: the lemmas on the pieces that its functions share.
pub mod Params
pub mod Statements
pub mod Context
pub mod Whole
use cobol.Prelude.{
  ==_iff, >>=-eq-some, All, All-append, All-map, Bool, Bool-cases, Bytes, IsNeg, Lacks, List,
  Option, Option-cases, [], ap, append-nil, append_assoc, arith, codes, drop, drop-length-append,
  eq→str_eq, false, get_elem?, get_or, if◌then◌else◌, inl, inr, is_neg, leb, leb→le, length,
  length-append, length-drop, length-replicate, length-take, ltb, ltb_ℤ, ltb→lt, lt→ltb, map, neg,
  neg_part, negsuc, none, not, pos, pos_add, pos_part, refl, replicate, some, str_eq, str_eq_iff,
  str_eq_refl, str_eq→eq, sub_ℕ, suc, sym, take, take-append-drop, take-length-append, tests, true,
  zero, ℕ, ℤ, ◌%◌, ◌&&◌, ◌*◌, ◌++◌, ◌+ℤ◌, ◌+◌, ◌-◌, ◌/◌, ◌<◌, ◌==◌, ◌>>=◌, ◌^◌, ◌||◌, ◌↔◌, ◌∙◌, ◌∷◌,
  ◌≡◌, ◌≢◌, ◌≤◌, ◌⊎◌,
}
use Prim.Native.String.{String}
use cobol.Precompiler.Fields.{HostType, Looked, looked, error, gethostvarianttype}
use cobol.Precompiler.Calls.{
  Arg, by_reference, Line, call, call_using, arg, end_call, full_stop, copy_sqlca, item, int,
  ExecList, Source, Message, Out, emit, then_, fail, written, with_type, ppoutputendcall,
  with_dbname,
}
use cobol.Precompiler.Calls.Reader.{Call, Place, between, in_call, fits, read_from, AreCalls}

-- Output without a message is read to its end from the place on.
abbrev pub IsClosed : Place → Out → Type 0
IsClosed p o = o.errors ≡ [] → AreCalls p o.lines

-- Output that continues a call with USING, behind its first argument.
abbrev pub Continues : Out → Type 0
Continues o = (e : String) (a : Arg) (taken : List Arg) → IsClosed (in_call e true (a ∷ taken)) o

-- A property of what the code does on either result of a test or a search.
pub on_looked {ℓ} :
    {A : Type ℓ} (P : A → Type 0) (r : Looked) {f : ℕ → A} {g : HostType → A}
    → ((e : ℕ) → P (f e))
    → ((t : HostType) → P (g t))
    → P (elim r [ error e ↦ f e | looked t ↦ g t ])
on_looked P (error e) p q = p e
on_looked P (looked t) p q = q t

pub on_option {ℓ κ} :
    {A : Type ℓ} {B : Type κ} (P : A → Type 0) (o : Option B) {f : A} {g : B → A}
    → P f
    → ((b : B) → P (g b))
    → P (elim o [ none ↦ f | some b ↦ g b ])
on_option P none p q = p
on_option P (some b) p q = q b

pub on_list {ℓ κ} :
    {A : Type ℓ} {B : Type κ} (P : A → Type 0) (xs : List B) {f : A} {g : B → A}
    → P f
    → ((x : B) → P (g x))
    → P (elim xs [ [] ↦ f | x ∷ rest ↦ g x ])
on_list P [] p q = p
on_list P (x ∷ xs) p q = q x

pub on_if {ℓ} :
    {A : Type ℓ} (P : A → Type 0) (b : Bool) {x y : A} → P x → P y → P (if b then x else y)
on_if P true p q = p
on_if P false p q = q

pub append_nil_left {ℓ} : {A : Type ℓ} (xs ys : List A) → xs ++ ys ≡ [] → xs ≡ []
append_nil_left [] ys h = refl
append_nil_left (x ∷ xs) ys h = cc

pub append_nil_right {ℓ} : {A : Type ℓ} (xs ys : List A) → xs ++ ys ≡ [] → ys ≡ []
append_nil_right [] ys h = h
append_nil_right (x ∷ xs) ys h = cc

-- The end of a call whose arguments fit.
pub end_AreCalls :
    (e : String) (using : Bool) (taken : List Arg) (b : Bool) (ls : List Line)
    → fits using taken ≡ true
    → AreCalls between ls
    → AreCalls (in_call e using taken) (end_call b ∷ ls)
unfolding read_from
end_AreCalls e using taken b ls f (cs, h) =
    (record { entry = e; args = taken; ends = b } ∷ cs, rw (f, h) refl)

pub AreCalls-end :
    (e : String) (using : Bool) (taken : List Arg) (b : Bool) (ls : List Line)
    → AreCalls (in_call e using taken) (end_call b ∷ ls)
    → (fits using taken ≡ true) × AreCalls between ls
unfolding read_from
AreCalls-end e using taken b ls (cs, h) = elim (Bool-cases (fits using taken)) [
  | inr f ↦ ground (arith, h)
  | inl f ↦ elim (Option-cases (read_from between ls)) [
    | inl n ↦ ground (arith, h)
    | inr (ds, n) ↦ (f, (ds, n))
  ]
]

append-AreCalls :
    (p : Place) (xs ys : List Line) → AreCalls p xs → AreCalls between ys → AreCalls p (xs ++ ys)
unfolding read_from
append-AreCalls between [] ys h k = k
append-AreCalls (in_call e using taken) [] ys h k = cc
append-AreCalls between (call e ∷ xs) ys h k = append-AreCalls (in_call e false []) xs ys h k
append-AreCalls between (call_using e ∷ xs) ys h k = append-AreCalls (in_call e true []) xs ys h k
append-AreCalls between (copy_sqlca ∷ xs) ys h k = append-AreCalls between xs ys h k
append-AreCalls between (full_stop b ∷ xs) ys h k = append-AreCalls between xs ys h k
append-AreCalls between (arg a ∷ xs) ys (cs, h) k = cc h
append-AreCalls between (end_call b ∷ xs) ys (cs, h) k = cc h
append-AreCalls (in_call e using taken) (arg a ∷ xs) ys h k =
    append-AreCalls (in_call e using (taken ++ (a ∷ []))) xs ys h k
append-AreCalls (in_call e using taken) (end_call b ∷ xs) ys h k =
    let (f, g) = AreCalls-end e using taken b xs h in
    end_AreCalls e using taken b (xs ++ ys) f (append-AreCalls between xs ys g k)
append-AreCalls (in_call e using taken) (call f ∷ xs) ys (cs, h) k = cc h
append-AreCalls (in_call e using taken) (call_using f ∷ xs) ys (cs, h) k = cc h
append-AreCalls (in_call e using taken) (copy_sqlca ∷ xs) ys (cs, h) k = cc h
append-AreCalls (in_call e using taken) (full_stop b ∷ xs) ys (cs, h) k = cc h
append-AreCalls between (item s ∷ xs) ys (cs, h) k = cc h
append-AreCalls (in_call e using taken) (item s ∷ xs) ys (cs, h) k = cc h

pub then-IsClosed :
    (p : Place) (o q : Out) → IsClosed p o → IsClosed between q → IsClosed p (then_ o q)
unfolding then_
then-IsClosed p o q c d h =
    append-AreCalls p o.lines q.lines (c (append_nil_left o.errors q.errors h))
      (d (append_nil_right o.errors q.errors h))

pub with_type-IsClosed :
    (p : Place) (src : Source) (name : Bytes) (line : ℕ) (k : HostType → Out)
    → ((t : HostType) → IsClosed p (k t))
    → IsClosed p (with_type src name line k)
unfolding with_type
with_type-IsClosed p src name line k c =
    elim (gethostvarianttype src.fields name)
      as (λ r. IsClosed p (elim r [ error e ↦ fail name line e | looked t ↦ k t ])) [
        | error e ↦ λ h. cc h
        | looked t ↦ c t
      ]

pub with_dbname-Continues :
    (src : Source) (list : ExecList) (rest : Out)
    → Continues rest
    → Continues (with_dbname src list rest)
unfolding with_dbname emit read_from
with_dbname-Continues src list rest c e a taken =
    elim list.conn_use_other_db
      as (λ b. IsClosed (in_call e true (a ∷ taken)) (if b then named else rest)) [
        | false ↦ c e a taken
        | true ↦
            with_type-IsClosed (in_call e true (a ∷ taken)) src list.db_name src.line_num _
              (λ t h. c e a ((taken ++ (by_reference list.db_name ∷ [])) ++ (int t.digits ∷ [])) h)
      ]
  where
    named : Out
    named =
        with_type src list.db_name src.line_num
          (λ t. emit (arg (by_reference list.db_name) ∷ arg (int t.digits) ∷ []) rest)

-- An END-CALL, and what follows it.
pub end-Continues : (b : Bool) (o : Out) → IsClosed between o → Continues (emit (end_call b ∷ []) o)
unfolding emit
end-Continues b o c e a taken h = end_AreCalls e true (a ∷ taken) b o.lines refl (c h)

pub ppoutputendcall-Continues : (list : ExecList) → Continues (ppoutputendcall list)
unfolding ppoutputendcall read_from
ppoutputendcall-Continues list e a taken h =
    end_AreCalls e true (a ∷ taken) list.period [] refl ([], refl)

-- A call without arguments, and what follows it.
pub bare-IsClosed :
    (e : String) (b : Bool) (o : Out)
    → IsClosed between o
    → IsClosed between (emit (call e ∷ end_call b ∷ []) o)
unfolding emit read_from
bare-IsClosed e b o c h = end_AreCalls e false [] b o.lines refl (c h)

-- A call with its first argument, which the rest continues.
pub using-IsClosed :
    (e : String) (a : Arg) (o : Out)
    → Continues o
    → IsClosed between (emit (call_using e ∷ arg a ∷ []) o)
unfolding emit read_from
using-IsClosed e a o c h = c e a [] h

pub arg-Continues : (a : Arg) (o : Out) → Continues o → Continues (emit (arg a ∷ []) o)
unfolding emit read_from
arg-Continues x o c e a taken h = c e a (taken ++ (x ∷ [])) h
