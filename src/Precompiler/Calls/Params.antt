-- ===== src/Precompiler/Calls/Params.antt =====
-- ocesql/ppout.c: the calls that hand over the host variables of a statement, and the fields that
-- its result goes into.
use cobol.Prelude.{
  Bool, Bytes, List, Option, [], false, if◌then◌else◌, ltb_ℤ, none, pos, some, ℕ, ℤ, ◌+◌, ◌==◌, ◌∷◌,
}
use cobol.Precompiler.Fields.{
  FieldTree, no_field, field, looked, error, HostType, getfieldbyname, gethostvarianttype,
  hvartype_group, err_notdef_working,
}
use cobol.Precompiler.Calls.{
  Value, number, unassigned, Arg, by_reference, by_element, by_value, Line, call_using, arg,
  end_call, int, HostReference, Out, fail, written, then_,
}

-- A type that was assigned, or not.
abbrev pub type_value : Option ℕ → Value
type_value none = unassigned
type_value (some t) = number (pos t)

abbrev pub variable : Bytes → ℤ → Arg
variable varface iteration =
    if ltb_ℤ (pos 0) iteration then by_element varface else by_reference varface

abbrev pub variable_args : Bytes → HostType → ℤ → List Line
variable_args varface t iteration =
    arg (by_value (type_value t.type))
    ∷ arg (int t.digits)
    ∷ arg (by_value (number t.scale))
    ∷ arg (variable varface iteration)
    ∷ end_call false
    ∷ []

-- `_ppoutputparam`
unfoldable pub output_param : Bytes → HostType → ℤ → Out
output_param varface t iteration =
    written (call_using "OCESQLSetSQLParams" ∷ variable_args varface t iteration)

-- `ppoutputresparam`
unfoldable pub ppoutputresparam : Bytes → HostType → ℤ → Out
ppoutputresparam varface t iteration =
    written (call_using "OCESQLSetResultParams" ∷ variable_args varface t iteration)

unfoldable pub is_group : HostType → Bool
is_group t = elim t.type [ none ↦ false | some n ↦ n == hvartype_group ]

-- The children of a group, which end at the first that has no type; with their number.
unfoldable pub children_params : FieldTree → FieldTree → ℕ → ℤ → Out × ℕ
unfolding output_param then_
children_params fs no_field line iteration = (written [], 0)
children_params fs (field f children sister) line iteration =
    let (o, count) = children_params fs sister line iteration in
    elim (gethostvarianttype fs f.sname) [
      | error e ↦ (fail f.sname line e, 0)
      | looked t ↦ (then_ (output_param f.sname t iteration) o, 1 + count)
    ]

-- `ppoutputparam`, with the number that it returns.
unfoldable pub ppoutputparam : FieldTree → HostReference → ℤ → Out × ℕ
unfolding children_params output_param is_group
ppoutputparam fs h iteration = elim (gethostvarianttype fs h.hostreference) [
  | error e ↦ (fail h.hostreference h.lineno e, 0)
  | looked t ↦
      if is_group t
      then elim (getfieldbyname fs h.hostreference) [
        | none ↦ (fail h.hostreference h.lineno err_notdef_working, 0)
        | some f ↦ children_params fs f.children h.lineno iteration
      ]
      else (output_param h.hostreference t iteration, 1)
]

-- The loop over the host variables, with the sum `count`.
unfoldable pub output_params : FieldTree → List HostReference → ℤ → Out × ℕ
unfolding ppoutputparam then_
output_params fs [] iteration = (written [], 0)
output_params fs (h ∷ hs) iteration =
    let (o, n) = ppoutputparam fs h iteration in
    let (p, count) = output_params fs hs iteration in (then_ o p, n + count)

-- `ppoutputresgroup`
unfoldable pub ppoutputresgroup : FieldTree → FieldTree → ℕ → ℤ → Out
unfolding ppoutputresparam is_group then_
ppoutputresgroup fs no_field line iteration = written []
ppoutputresgroup fs (field f children sister) line iteration =
    let below = ppoutputresgroup fs children line iteration in
    let beside = ppoutputresgroup fs sister line iteration in
    elim (gethostvarianttype fs f.sname) [
      | error e ↦ fail f.sname line e
      | looked t ↦ then_ (if is_group t then below else ppoutputresparam f.sname t iteration) beside
    ]
