-- ===== src/Precompiler/Calls.antt =====
-- The calls of the run-time library that ocesql/ppout.c writes for a statement. A line that is longer
-- than its buffer of 256 (in `ppbuff` 60) bytes overwrites what follows the buffer; the model
-- gives the line.
pub mod Params
pub mod Statements
pub mod Context
pub mod Select
pub mod Table
pub mod Counts
pub mod Announced
pub mod Lost
pub mod Varying
pub mod Reader
pub mod Closed
use cobol.Prelude.{
  ==_iff, >>=-eq-some, All, All-append, All-map, Bool, Bool-cases, Bytes, IsNeg, Lacks, List,
  Option, Option-cases, [], ap, append-nil, append_assoc, arith, codes, drop, drop-length-append,
  eq→str_eq, false, get_elem?, get_or, if◌then◌else◌, inl, inr, is_neg, leb, leb→le, length,
  length-append, length-drop, length-replicate, length-take, ltb, ltb_ℤ, ltb→lt, lt→ltb, map, neg,
  neg_part, negsuc, none, not, pos, pos_add, pos_part, refl, replicate, some, str_eq, str_eq_iff,
  str_eq_refl, str_eq→eq, sub_ℕ, suc, sym, take, take-append-drop, take-length-append, tests, true,
  zero, ℕ, ℤ, ◌%◌, ◌&&◌, ◌*◌, ◌++◌, ◌+ℤ◌, ◌+◌, ◌-◌, ◌/◌, ◌<◌, ◌==◌, ◌>>=◌, ◌^◌, ◌||◌, ◌↔◌, ◌∙◌, ◌∷◌,
  ◌≡◌, ◌≢◌, ◌≤◌, ◌⊎◌,
}
use Prim.Native.String.{String}
use cobol.Precompiler.Fields.{
  CbField, FieldTree, Looked, looked, error, HostType, gethostvarianttype,
}

-- What follows BY VALUE: a number, a variable of the program, or a variable of the precompiler
-- that was never assigned.
pub data Value : Type 0 where
  number : ℤ → Value
  content : Bytes → Value
  unassigned : Value

-- BY REFERENCE a name, the first element of a table, or a text with a NUL; or BY VALUE.
pub data Arg : Type 0 where
  by_reference : Bytes → Arg
  by_element : Bytes → Arg
  by_text : Bytes → Arg
  by_value : Value → Arg

-- A line of the output; the two ways of writing a line, with `fputs` and with `outwrite`, agree.
pub data Line : Type 0 where
  call : String → Line
  call_using : String → Line
  arg : Arg → Line
  end_call : Bool → Line
  full_stop : Bool → Line
  copy_sqlca : Line
  -- A line of WORKING-STORAGE.
  item : Bytes → Line

abbrev pub sqlca : Arg
sqlca = by_reference (codes "SQLCA")

abbrev pub int : ℕ → Arg
int n = by_value (number (pos n))

-- `struct cb_hostreference_list` and `struct cb_res_hostreference_list`
pub record HostReference : Type 0 where
  pub hostreference : Bytes
  pub hostno : ℕ
  pub lineno : ℕ

pub record ResHostReference : Type 0 where
  pub hostreference : Bytes
  pub lineno : ℕ

-- `struct cb_exec_list`; the names are copied from arrays, so that none is NULL.
pub record ExecList : Type 0 where
  pub period : Bool
  pub host_list : List HostReference
  pub hostreference_count : ℕ
  pub res_host_list : List ResHostReference
  pub conn_use_other_db : Bool
  pub db_name : Bytes
  pub prepare_name : Bytes
  pub cursor_name : Bytes
  pub command_name : Bytes
  pub command_putother : Bool
  pub sql_name : Bytes

-- What the functions read beside this record of the statement: `description_field`, `lineNUM`,
-- `inbuff`, the statement's `varname`, and the words and item names of the statements from it on.
pub record Source : Type 0 where
  pub fields : FieldTree
  pub line_num : ℕ
  pub inbuff : Bytes
  pub varname : Option CbField
  pub statements : List (List Bytes × Bytes)

-- `printerrormsg`
pub record Message : Type 0 where
  pub name : Bytes
  pub line : ℕ
  pub code : ℕ

-- What is written: the lines, and the messages.
pub record Out : Type 0 where
  pub lines : List Line
  pub errors : List Message

abbrev pub fail : Bytes → ℕ → ℕ → Out
fail name line code = record {
  lines = [];
  errors = record { name = name; line = line; code = code } ∷ [];
}

-- Lines in front of the rest.
unfoldable pub emit : List Line → Out → Out
emit ls o = record { lines = ls ++ o.lines; errors = o.errors }

-- One output behind another.
unfoldable pub then_ : Out → Out → Out
then_ o p = record { lines = o.lines ++ p.lines; errors = o.errors ++ p.errors }

abbrev pub written : List Line → Out
written ls = record { lines = ls; errors = [] }

-- The type of a variable, or a message and the end.
unfoldable pub with_type : Source → Bytes → ℕ → (HostType → Out) → Out
with_type src name line k = elim (gethostvarianttype src.fields name) [
  | error e ↦ fail name line e
  | looked t ↦ k t
]

-- `ppoutputendcall`
unfoldable pub ppoutputendcall : ExecList → Out
ppoutputendcall list = written (end_call list.period ∷ [])

-- The name of the connection, if the statement has one.
unfoldable pub with_dbname : Source → ExecList → Out → Out
unfolding with_type emit
with_dbname src list rest =
    if list.conn_use_other_db
    then with_type src list.db_name src.line_num
        (λ t. emit (arg (by_reference list.db_name) ∷ arg (int t.digits) ∷ []) rest)
    else rest
