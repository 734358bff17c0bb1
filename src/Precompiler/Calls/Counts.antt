-- ===== src/Precompiler/Calls/Counts.antt =====
-- The number of host variables that the calls of ocesql/ppout.c announce, and hand over.
use cobol.Prelude.{
  Option, none, if◌then◌else◌, Bool, Bytes, List, [], arith, false, length, length-append, refl,
  some, true, ℕ, ℤ, ◌++◌, ◌+◌, ◌∙◌, ◌∷◌, ◌≡◌,
}
use Prim.Native.String.{String}
use cobol.Precompiler.Fields.{
  Found, Looked, looked, error, FieldTree, no_field, field, HostType, getfieldbyname,
  gethostvarianttype, err_notdef_working,
}
use cobol.Precompiler.Calls.{
  by_value, number, Arg, by_reference, Line, call, call_using, arg, end_call, full_stop, copy_sqlca,
  item, int, HostReference, ExecList, Source, Out, written, fail, emit, then_, with_type,
  with_dbname,
}
use cobol.Precompiler.Calls.Params.{
  type_value, variable, is_group, output_param, children_params, ppoutputparam, output_params,
}
use cobol.Precompiler.Calls.Reader.{Call, Place, between, in_call, fits, in_front, read_from}
use cobol.Precompiler.Calls.Closed.{
  append_nil_left, append_nil_right, on_looked, on_if, AreCalls-end,
}

-- The call that hands over the variable `name` of the type `t`, for `i` elements.
abbrev pub param_call : Bytes → HostType → ℤ → Call
param_call name t i = record {
  entry = "OCESQLSetSQLParams";
  args =
      by_value (type_value t.type)
      ∷ int t.digits
      ∷ by_value (number t.scale)
      ∷ variable name i
      ∷ [];
  ends = false;
}

-- The calls hand over the variables of these names, in order, each with its own type.
pub data HandsOver (fs : FieldTree) (i : ℤ) : List Bytes → List Call → Type 0 where
  no_variable : HandsOver fs i [] []
  hands :
      (name : Bytes) (t : HostType) (names : List Bytes) (cs : List Call)
      → gethostvarianttype fs name ≡ looked t
      → HandsOver fs i names cs
      → HandsOver fs i (name ∷ names) (param_call name t i ∷ cs)

-- The names of a field and its sisters.
abbrev pub sister_names : FieldTree → List Bytes
sister_names no_field = []
sister_names (field f children sister) = f.sname ∷ sister_names sister

-- The variables that a host variable stands for: the fields of a group, or itself.
abbrev names_by : FieldTree → HostReference → Looked → List Bytes
names_by fs h (error e) = []
names_by fs h (looked t) =
    if is_group t
    then elim (getfieldbyname fs h.hostreference) [ none ↦ [] | some f ↦ sister_names f.children ]
    else h.hostreference ∷ []

abbrev pub names_of : FieldTree → HostReference → List Bytes
names_of fs h = names_by fs h (gethostvarianttype fs h.hostreference)

abbrev pub all_names : FieldTree → List HostReference → List Bytes
all_names fs [] = []
all_names fs (h ∷ hs) = names_of fs h ++ all_names fs hs

HandsOver-append :
    {fs : FieldTree} {i : ℤ} {ms ns : List Bytes} {cs ds : List Call}
    → HandsOver fs i ms cs
    → HandsOver fs i ns ds
    → HandsOver fs i (ms ++ ns) (cs ++ ds)
HandsOver-append no_variable g = g
HandsOver-append (hands name t names cs e h) g = hands name t _ _ e (HandsOver-append h g)

read_end :
    (e : String) (using : Bool) (taken : List Arg) (b : Bool) (ls : List Line) (cs : List Call)
    → read_from (in_call e using taken) (end_call b ∷ ls) ≡ some cs
    → (ds : List Call) × ((fits using taken ≡ true)
        × ((read_from between ls ≡ some ds)
            × (cs ≡ record { entry = e; args = taken; ends = b } ∷ ds)))
unfolding read_from
read_end e using taken b ls cs h =
    let (f, (ds, g)) = AreCalls-end e using taken b ls (cs, h) in
    let k : some (record { entry = e; args = taken; ends = b } ∷ ds) ≡ some cs =
      (let step : in_front (record { entry = e; args = taken; ends = b }) (some ds)
            ≡ read_from (in_call e using taken) (end_call b ∷ ls) =
          rw (f, g) refl in
        step ∙ h) in
    (ds, (f, (g, cc k)))

-- The calls of one output, and of what follows it.
pub read_from-append :
    (p : Place) (xs ys : List Line) {cs ds : List Call}
    → read_from p xs ≡ some cs
    → read_from between ys ≡ some ds
    → read_from p (xs ++ ys) ≡ some (cs ++ ds)
unfolding read_from
read_from-append between [] ys {cs} {ds} h k = let q : [] ≡ cs = cc h in rw (← q) k
read_from-append (in_call e using taken) [] ys h k = cc h
read_from-append between (call e ∷ xs) ys h k = read_from-append (in_call e false []) xs ys h k
read_from-append between (call_using e ∷ xs) ys h k = read_from-append (in_call e true []) xs ys h k
read_from-append between (copy_sqlca ∷ xs) ys h k = read_from-append between xs ys h k
read_from-append between (full_stop b ∷ xs) ys h k = read_from-append between xs ys h k
read_from-append between (arg a ∷ xs) ys h k = cc h
read_from-append between (end_call b ∷ xs) ys h k = cc h
read_from-append (in_call e using taken) (arg a ∷ xs) ys h k =
    read_from-append (in_call e using (taken ++ (a ∷ []))) xs ys h k
read_from-append (in_call e using taken) (end_call b ∷ xs) ys {cs} {ds} h k =
    let (es, (f, (g, q))) = read_end e using taken b xs cs h in
    rw (f, q, read_from-append between xs ys g k) refl
read_from-append (in_call e using taken) (call f ∷ xs) ys h k = cc h
read_from-append (in_call e using taken) (call_using f ∷ xs) ys h k = cc h
read_from-append (in_call e using taken) (copy_sqlca ∷ xs) ys h k = cc h
read_from-append (in_call e using taken) (full_stop b ∷ xs) ys h k = cc h
read_from-append between (item s ∷ xs) ys h k = cc h
read_from-append (in_call e using taken) (item s ∷ xs) ys h k = cc h

-- What `with_dbname` adds to a call: the name of the connection and its size, or nothing.
pub with_dbname-named :
    (src : Source) (list : ExecList) (rest : Out) (e : String) (a : Arg)
    → (with_dbname src list rest).errors ≡ []
    → (named : List Arg) × (read_from (in_call e true (a ∷ [])) (with_dbname src list rest).lines
        ≡ read_from (in_call e true (a ∷ named)) rest.lines)
unfolding with_dbname with_type emit read_from
with_dbname-named src list rest e a =
    on_if IsNamed list.conn_use_other_db
      (on_looked IsNamed (gethostvarianttype src.fields list.db_name) (λ c h. cc h)
        (λ t h. (by_reference list.db_name ∷ int t.digits ∷ [], refl)))
      (λ h. ([], refl))
  where
    IsNamed : Out → Type 0
    IsNamed o =
        o.errors ≡ []
        → (named : List Arg) × (read_from (in_call e true (a ∷ [])) o.lines
            ≡ read_from (in_call e true (a ∷ named)) rest.lines)

-- Output that hands over as many host variables as the number with it says, and without a message
-- those of the names.
abbrev pub Counted : FieldTree → ℤ → List Bytes → Out × ℕ → Type 0
Counted fs i names (o, n) =
    (cs : List Call) × (read_from between o.lines ≡ some cs)
    × (length cs ≡ n)
    × (o.errors ≡ [] → HandsOver fs i names cs)

module _ (fs : FieldTree) (i : ℤ) where
  nothing-Counted : Counted fs i [] (written [], 0)
  unfolding read_from
  nothing-Counted = ([], refl, refl, λ _. no_variable)

  fail-Counted :
      (names : List Bytes) (name : Bytes) (line code : ℕ)
      → Counted fs i names (fail name line code, 0)
  unfolding read_from
  fail-Counted names name line code = ([], refl, refl, λ h. absurd (cc h))

  output_param-Counted :
      (name : Bytes) (t : HostType)
      → gethostvarianttype fs name ≡ looked t
      → Counted fs i (name ∷ []) (output_param name t i, 1)
  unfolding output_param read_from
  output_param-Counted name t e = (_, refl, refl, λ _. hands name t [] [] e no_variable)

  then-Counted :
      (o p : Out) (m n : ℕ) (ms ns : List Bytes)
      → Counted fs i ms (o, m)
      → Counted fs i ns (p, n)
      → Counted fs i (ms ++ ns) (then_ o p, m + n)
  unfolding then_
  then-Counted o p m n ms ns (cs, r, l, a) (ds, s, k, b) = (
    cs ++ ds,
    read_from-append between o.lines p.lines r s,
    omega (arith, length-append cs ds, l, k),
    λ h.
        HandsOver-append (a (append_nil_left o.errors p.errors h))
          (b (append_nil_right o.errors p.errors h)),
  )

  children_params-Counted :
      (cs : FieldTree) (line : ℕ) → Counted fs i (sister_names cs) (children_params fs cs line i)
  unfolding children_params
  children_params-Counted no_field line = nothing-Counted
  children_params-Counted (field f below cs) line =
      by_type (gethostvarianttype fs f.sname) refl (children_params-Counted cs line)
    where
      by_type :
          (r : Looked)
          → gethostvarianttype fs f.sname ≡ r
          → Counted fs i (sister_names cs) (children_params fs cs line i)
          → Counted fs i (f.sname ∷ sister_names cs) (elim r [
            | error e ↦ (fail f.sname line e, 0)
            | looked t ↦ (
              then_ (output_param f.sname t i) (children_params fs cs line i).0,
              1 + (children_params fs cs line i).1,
            )
          ])
      by_type (error e) q c = fail-Counted (f.sname ∷ sister_names cs) f.sname line e
      by_type (looked t) q c =
          let o = children_params fs cs line i in
          then-Counted (output_param f.sname t i) o.0 1 o.1 (f.sname ∷ []) (sister_names cs)
            (output_param-Counted f.sname t q) c

  ppoutputparam-Counted : (h : HostReference) → Counted fs i (names_of fs h) (ppoutputparam fs h i)
  unfolding ppoutputparam
  ppoutputparam-Counted h = by_type (gethostvarianttype fs h.hostreference) refl
    where
      by_field :
          (r : Option Found)
          → Counted fs i
              (elim r [ none ↦ [] | some f ↦ sister_names f.children ])
              (elim r [
                | none ↦ (fail h.hostreference h.lineno err_notdef_working, 0)
                | some f ↦ children_params fs f.children h.lineno i
              ])
      by_field none = fail-Counted [] h.hostreference h.lineno err_notdef_working
      by_field (some f) = children_params-Counted f.children h.lineno

      by_group :
          (t : HostType) (b : Bool)
          → gethostvarianttype fs h.hostreference ≡ looked t
          → Counted fs i
              (if b
                then elim (getfieldbyname fs h.hostreference) [
                  | none ↦ []
                  | some f ↦ sister_names f.children
                ]
                else h.hostreference ∷ [])
              (if b
                then elim (getfieldbyname fs h.hostreference) [
                  | none ↦ (fail h.hostreference h.lineno err_notdef_working, 0)
                  | some f ↦ children_params fs f.children h.lineno i
                ]
                else (output_param h.hostreference t i, 1))
      by_group t true q = by_field (getfieldbyname fs h.hostreference)
      by_group t false q = output_param-Counted h.hostreference t q

      by_type :
          (r : Looked)
          → gethostvarianttype fs h.hostreference ≡ r
          → Counted fs i (names_by fs h r) (elim r [
            | error e ↦ (fail h.hostreference h.lineno e, 0)
            | looked t ↦
                if is_group t
                then elim (getfieldbyname fs h.hostreference) [
                  | none ↦ (fail h.hostreference h.lineno err_notdef_working, 0)
                  | some f ↦ children_params fs f.children h.lineno i
                ]
                else (output_param h.hostreference t i, 1)
          ])
      by_type (error e) q = fail-Counted [] h.hostreference h.lineno e
      by_type (looked t) q = by_group t (is_group t) q

  pub output_params-Counted :
      (hs : List HostReference) → Counted fs i (all_names fs hs) (output_params fs hs i)
  unfolding output_params
  output_params-Counted [] = nothing-Counted
  output_params-Counted (h ∷ hs) =
      then-Counted (ppoutputparam fs h i).0 (output_params fs hs i).0 (ppoutputparam fs h i).1
        (output_params fs hs i).1 (names_of fs h) (all_names fs hs) (ppoutputparam-Counted h)
        (output_params-Counted hs)
