-- ===== src/Precompiler/Statement.antt =====
-- ocesql/ocesql.c and `put_exec_list` of ocesql/parser.y (in parser.c): the lists of a statement that
-- the actions of the parser build in global variables. The state holds these variables.
pub mod Numbered
use cobol.Prelude.{
  ==_iff, >>=-eq-some, All, All-append, All-map, Bool, Bool-cases, Bytes, IsNeg, Lacks, List,
  Option, Option-cases, [], ap, append-nil, append_assoc, arith, codes, drop, drop-length-append,
  eq→str_eq, false, get_elem?, get_or, if◌then◌else◌, inl, inr, is_neg, leb, leb→le, length,
  length-append, length-drop, length-replicate, length-take, ltb, ltb_ℤ, ltb→lt, lt→ltb, map, neg,
  neg_part, negsuc, none, not, pos, pos_add, pos_part, refl, replicate, some, str_eq, str_eq_iff,
  str_eq_refl, str_eq→eq, sub_ℕ, suc, sym, take, take-append-drop, take-length-append, tests, true,
  zero, ℕ, ℤ, ◌%◌, ◌&&◌, ◌*◌, ◌++◌, ◌+ℤ◌, ◌+◌, ◌-◌, ◌/◌, ◌<◌, ◌==◌, ◌>>=◌, ◌^◌, ◌||◌, ◌↔◌, ◌∙◌, ◌∷◌,
  ◌≡◌, ◌≢◌, ◌≤◌, ◌⊎◌,
}
use cobol.Precompiler.Calls.{HostReference, ResHostReference, ExecList}

pub record Parsing : Type 0 where
  pub host_reference_list : List HostReference
  pub res_host_reference_list : List ResHostReference
  pub sql_list : List Bytes
  pub hostlineno : ℕ
  pub hostreference_count : ℕ
  pub db_name : Bytes
  pub prep_name : Bytes
  pub cursor_name : Bytes
  pub command_name : Bytes
  pub sql_name : Bytes
  pub period : Bool
  pub conn_use_other_db : Bool
  pub command_putother : Bool
  pub exec_list : List ExecList

-- The scanner's action at `EXEC SQL`.
unfoldable pub begin_statement : Parsing → Parsing
begin_statement p = record p {
  host_reference_list = [];
  res_host_reference_list = [];
  db_name = [];
  prep_name = [];
  command_name = [];
  cursor_name = [];
  sql_name = [];
  hostreference_count = 0;
  sql_list = [];
  period = false;
  conn_use_other_db = false;
  command_putother = false;
}

-- `cb_text_list_add`, on a list that may be empty.
unfoldable pub cb_text_list_add : List Bytes → Bytes → List Bytes
cb_text_list_add list text = list ++ (text ∷ [])

-- `cb_add_text_list`; an empty first list is a null pointer that is followed.
unfoldable pub cb_add_text_list : List Bytes → List Bytes → Parsing → Option Parsing
cb_add_text_list [] target p = none
cb_add_text_list (t ∷ ts) target p = some (record p { sql_list = (t ∷ ts) ++ target })

-- `cb_search_list`, with the number that it returns.
unfoldable pub cb_search_list : Bytes → Parsing → Parsing × ℕ
cb_search_list text p =
    let i = length p.host_reference_list in
    (
      record p {
        host_reference_list =
            p.host_reference_list
            ++ (record { hostreference = text; hostno = i + 1; lineno = p.hostlineno } ∷ []);
      },
      i + 1,
    )

-- The digits of a number, on fuel; a number is fuel enough for its digits.
unfoldable pub decimal_on : ℕ → ℕ → Bytes
decimal_on zero n = (n % 10 + 48) ∷ []
decimal_on (suc fuel) n =
    let higher = decimal_on fuel (n / 10) in
    if ltb n 10 then (n % 10 + 48) ∷ [] else higher ++ ((n % 10 + 48) ∷ [])

-- `%d`
abbrev pub decimal : ℕ → Bytes
decimal n = decimal_on n n

-- `cb_host_list_add`, with the text that stands for the variable.
unfoldable pub cb_host_list_add : Bytes → Parsing → Parsing × Bytes
unfolding cb_search_list decimal_on
cb_host_list_add text p = let (q, hostno) = cb_search_list text p in (q, b'$' ∷ decimal hostno)

unfoldable pub cb_res_host_list_add : Bytes → Parsing → Parsing
cb_res_host_list_add text p = record p {
  res_host_reference_list =
      p.res_host_reference_list ++ (record { hostreference = text; lineno = p.hostlineno } ∷ []);
}

-- `filename_id` is `filenameID`.
unfoldable pub cb_set_cursorname : Bytes → Bytes → Parsing → Parsing
cb_set_cursorname filename_id text p = record p { cursor_name = filename_id ++ (b'_' ∷ text) }

unfoldable pub cb_set_dbname : Bytes → Parsing → Parsing
cb_set_dbname text p = record p { db_name = text }

unfoldable pub cb_set_prepname : Bytes → Parsing → Parsing
cb_set_prepname text p = record p { prep_name = text }

-- The statement that `put_exec_list` allocates, with the count that it reaches.
abbrev pub exec_of : Parsing → ℕ → ExecList
exec_of p count = record {
  period = p.period;
  host_list = p.host_reference_list;
  hostreference_count = count;
  res_host_list = p.res_host_reference_list;
  conn_use_other_db = p.conn_use_other_db;
  db_name = p.db_name;
  prepare_name = p.prep_name;
  cursor_name = p.cursor_name;
  command_name = p.command_name;
  command_putother = p.command_putother;
  sql_name = p.sql_name;
}

-- `put_exec_list`
unfoldable pub put_exec_list : Parsing → Parsing
put_exec_list p =
    let count = p.hostreference_count + length p.host_reference_list in
    record p { hostreference_count = count; exec_list = p.exec_list ++ (exec_of p count ∷ []) }
