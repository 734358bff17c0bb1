-- ===== src/Precompiler/Calls/Closed/Params.antt =====
-- The calls for the host variables of a statement are whole calls.
use cobol.Prelude.{Bytes, List, [], pos, refl, suc, ℕ, ℤ, ◌∷◌}
use cobol.Precompiler.Fields.{
  FieldTree, no_field, field, HostType, getfieldbyname, gethostvarianttype, err_notdef_working,
}
use cobol.Precompiler.Calls.{HostReference, ResHostReference, Source, Out, written, fail}
use cobol.Precompiler.Calls.Params.{
  is_group, output_param, ppoutputresparam, children_params, ppoutputparam, output_params,
  ppoutputresgroup,
}
use cobol.Precompiler.Calls.Statements.{output_res_params}
use cobol.Precompiler.Calls.Select.{into_group, into_fields}
use cobol.Precompiler.Calls.Reader.{between, read_from}
use cobol.Precompiler.Calls.Closed.{
  IsClosed, on_looked, on_option, on_if, then-IsClosed, with_type-IsClosed,
}

pub nothing-IsClosed : IsClosed between (written [])
unfolding read_from
nothing-IsClosed h = ([], refl)

pub fail-IsClosed : (name : Bytes) (line code : ℕ) → IsClosed between (fail name line code)
fail-IsClosed name line code h = cc h

output_param-IsClosed :
    (name : Bytes) (t : HostType) (i : ℤ) → IsClosed between (output_param name t i)
unfolding output_param read_from
output_param-IsClosed name t i h = (_, refl)

pub ppoutputresparam-IsClosed :
    (name : Bytes) (t : HostType) (i : ℤ) → IsClosed between (ppoutputresparam name t i)
unfolding ppoutputresparam read_from
ppoutputresparam-IsClosed name t i h = (_, refl)

children_params-IsClosed :
    (fs cs : FieldTree) (line : ℕ) (i : ℤ) → IsClosed between (children_params fs cs line i).0
unfolding children_params
children_params-IsClosed fs no_field line i = nothing-IsClosed
children_params-IsClosed fs (field f below cs) line i =
    let o = children_params fs cs line i in
    on_looked (λ (x : Out × ℕ). IsClosed between x.0) (gethostvarianttype fs f.sname)
      (fail-IsClosed f.sname line)
      (λ t.
        then-IsClosed between (output_param f.sname t i) o.0 (output_param-IsClosed f.sname t i)
          (children_params-IsClosed fs cs line i))

ppoutputparam-IsClosed :
    (fs : FieldTree) (h : HostReference) (i : ℤ) → IsClosed between (ppoutputparam fs h i).0
unfolding ppoutputparam
ppoutputparam-IsClosed fs h i =
    let closed : Out × ℕ → Type 0 = λ x. IsClosed between x.0 in
    on_looked closed (gethostvarianttype fs h.hostreference)
      (fail-IsClosed h.hostreference h.lineno)
      (λ t.
        on_if closed (is_group t)
          (on_option closed (getfieldbyname fs h.hostreference)
            (fail-IsClosed h.hostreference h.lineno err_notdef_working)
            (λ f. children_params-IsClosed fs f.children h.lineno i))
          (output_param-IsClosed h.hostreference t i))

pub output_params-IsClosed :
    (fs : FieldTree) (hs : List HostReference) (i : ℤ) → IsClosed between (output_params fs hs i).0
unfolding output_params
output_params-IsClosed fs [] i = nothing-IsClosed
output_params-IsClosed fs (h ∷ hs) i =
    then-IsClosed between (ppoutputparam fs h i).0 (output_params fs hs i).0
      (ppoutputparam-IsClosed fs h i) (output_params-IsClosed fs hs i)

pub ppoutputresgroup-IsClosed :
    (fs cs : FieldTree) (line : ℕ) (i : ℤ) → IsClosed between (ppoutputresgroup fs cs line i)
unfolding ppoutputresgroup
ppoutputresgroup-IsClosed fs no_field line i = nothing-IsClosed
ppoutputresgroup-IsClosed fs (field f below cs) line i =
    let beside = ppoutputresgroup fs cs line i in
    on_looked (IsClosed between) (gethostvarianttype fs f.sname) (fail-IsClosed f.sname line) (λ t.
      then-IsClosed between _ beside
        (on_if (IsClosed between) (is_group t) (ppoutputresgroup-IsClosed fs below line i)
          (ppoutputresparam-IsClosed f.sname t i))
        (ppoutputresgroup-IsClosed fs cs line i))

pub output_res_params-IsClosed :
    (src : Source) (hs : List ResHostReference) (rest : Out)
    → IsClosed between rest
    → IsClosed between (output_res_params src hs rest)
unfolding output_res_params
output_res_params-IsClosed src [] rest c = c
output_res_params-IsClosed src (h ∷ hs) rest c =
    with_type-IsClosed between src h.hostreference h.lineno _ (λ t.
      then-IsClosed between (ppoutputresparam h.hostreference t (pos 0)) _
        (ppoutputresparam-IsClosed h.hostreference t (pos 0))
        (output_res_params-IsClosed src hs rest c))

pub into_fields-IsClosed :
    (src : Source) (hs : List ResHostReference) (n : ℕ) (k : ℕ → Out)
    → ((m : ℕ) → IsClosed between (k m))
    → IsClosed between (into_fields src hs n k)
unfolding into_fields
into_fields-IsClosed src [] n k c = c n
into_fields-IsClosed src (h ∷ hs) n k c =
    with_type-IsClosed between src h.hostreference h.lineno _ (λ t.
      then-IsClosed between (ppoutputresparam h.hostreference t (pos 0)) _
        (ppoutputresparam-IsClosed h.hostreference t (pos 0))
        (into_fields-IsClosed src hs (suc n) k c))

pub into_group-IsClosed :
    (src : Source) (cs : FieldTree) (line : ℕ) (i : ℤ) (n : ℕ) (k : ℕ → Out)
    → ((m : ℕ) → IsClosed between (k m))
    → IsClosed between (into_group src cs line i n k)
unfolding into_group
into_group-IsClosed src no_field line i n k c = c n
into_group-IsClosed src (field f below cs) line i n k c =
    with_type-IsClosed between src f.sname line _ (λ t.
      then-IsClosed between (ppoutputresparam f.sname t i) _ (ppoutputresparam-IsClosed f.sname t i)
        (into_group-IsClosed src cs line i (suc n) k c))
