-- ===== src/Precompiler/Calls/Closed/Context.antt =====
-- PREPARE and the statements with parameters of ocesql/ppout.c are whole calls; whichever function
-- `ppoutcontext` takes, its lines are.
use cobol.Prelude.{Bytes, Option, [], codes, ltb_ℤ, none, pos, some, ℕ, ◌==◌, ◌>>=◌, ◌∷◌}
use cobol.Precompiler.Fields.{
  FieldTree, no_field, field, CbField, Found, getfieldbyname, gethostvarianttype,
  err_notdef_working,
}
use cobol.Precompiler.Calls.{
  by_reference, by_text, by_value, arg, sqlca, content, HostReference, ExecList, Source, Out, fail,
  emit, then_,
}
use cobol.Precompiler.Calls.Params.{is_group, output_params}
use cobol.Precompiler.Calls.Statements.{
  entry_name, ppoutputcommit, ppoutputrollback, Table, output_transaction, ppoutputdisconnect,
}
use cobol.Precompiler.Calls.Context.{
  exec_entry, occurs_check, output_exec_params, ppoutputother, prepare_text, prepare_variable,
  ppoutputprepare, Answer, not_here, here, Command, connect, open_cursor, execute, fetch, commit,
  commit_release, rollback, rollback_release, changes, prepare, disconnect, put_other, elsewhere,
  command_of, output_command, ppoutcontext,
}
use cobol.Precompiler.Calls.Reader.{between}
use cobol.Precompiler.Calls.Closed.{
  IsClosed, Continues, on_looked, on_option, on_list, on_if, then-IsClosed, with_dbname-Continues,
  ppoutputendcall-Continues, using-IsClosed, arg-Continues,
}
use cobol.Precompiler.Calls.Closed.Params.{output_params-IsClosed}
use cobol.Precompiler.Calls.Closed.Statements.{
  Holds, end_lines-Continues, start_lines-IsClosed, in_table-IsClosed, ppoutputopen-IsClosed,
  ppoutputconnect-IsClosed, ppoutputexecprepare-IsClosed, ppoutputfetch-Holds,
  output_transaction-IsClosed, ppoutputdisconnect-IsClosed,
}

exec_entry-IsClosed :
    (list : ExecList) (table : Table) (rest : Out)
    → Continues rest
    → IsClosed between (emit (exec_entry list table) rest)
exec_entry-IsClosed list table rest c =
    on_if (λ ls. IsClosed between (emit ls rest)) (ltb_ℤ (pos 0) table.0)
      (in_table-IsClosed table (entry_name list "OCESQLExecParamsOccurs" "OCESQLIDExecParamsOccurs")
        sqlca rest c)
      (using-IsClosed (entry_name list "OCESQLExecParams" "OCESQLIDExecParams") sqlca rest c)

output_exec_params-IsClosed :
    (src : Source) (list : ExecList) (table : Table)
    → IsClosed between (output_exec_params src list table)
unfolding output_exec_params
output_exec_params-IsClosed src list table = start_lines-IsClosed _ (
    then-IsClosed between (output_params src.fields list.host_list table.0).0 _
      (output_params-IsClosed src.fields list.host_list table.0)
      (exec_entry-IsClosed list table _ (
        with_dbname-Continues src list _ (
          arg-Continues (by_reference list.sql_name) (emit (arg _ ∷ []) _)
            (arg-Continues _ _ (end_lines-Continues list))))))

bind-Holds {ℓ} :
    {A : Type ℓ} (P : Out → Type 0) (o : Option A) (f : A → Out)
    → ((a : A) → P (f a))
    → Holds P (o >>= λ a. some (f a))
bind-Holds P none f c = tt
bind-Holds P (some a) f c = c a

pub ppoutputother-Holds :
    (src : Source) (list : ExecList) → Holds (IsClosed between) (ppoutputother src list)
unfolding ppoutputother
ppoutputother-Holds src list =
    on_if (Holds (IsClosed between)) (list.hostreference_count == 0)
      (using-IsClosed (entry_name list "OCESQLExec" "OCESQLIDExec") sqlca _ (
        with_dbname-Continues src list _
          (arg-Continues (by_reference list.sql_name) _ (ppoutputendcall-Continues list))))
      (bind-Holds (IsClosed between) (occurs_check src list) (output_exec_params src list)
        (output_exec_params-IsClosed src list))

-- A property of what the code does at the end of a list of fields, or at a field.
on_tree {ℓ} :
    {A : Type ℓ} (P : A → Type 0) (t : FieldTree) {f : A} {g : CbField → FieldTree → A}
    → P f
    → ((c : CbField) (s : FieldTree) → P (g c s))
    → P (elim t [ no_field ↦ f | field c below s ↦ g c s ])
on_tree P no_field p q = p
on_tree P (field c below s) p q = q c s

fail-Continues : (name : Bytes) (line code : ℕ) → Continues (fail name line code)
fail-Continues name line code e a taken h = cc h

prepare_text-Holds :
    (h : HostReference) (list : ExecList) (p : Found) → Holds Continues (prepare_text h list p)
unfolding prepare_text
prepare_text-Holds h list p =
    let invalid = fail-Continues h.hostreference h.lineno 14 in
    on_tree (Holds Continues) p.children tt (λ len sister.
      on_tree (Holds Continues) sister invalid (λ arr rest.
        on_if Continues _
          (arg-Continues (by_reference arr.sname) (emit (arg (by_value (content len.sname)) ∷ []) _)
            (arg-Continues (by_value (content len.sname)) _ (ppoutputendcall-Continues list)))
          invalid))

prepare_variable-Holds :
    (src : Source) (h : HostReference) (list : ExecList)
    → Holds Continues (prepare_variable src h list)
unfolding prepare_variable
prepare_variable-Holds src h list =
    on_looked (Holds Continues) (gethostvarianttype src.fields h.hostreference)
      (fail-Continues h.hostreference h.lineno)
      (λ t.
        on_if (Holds Continues) (is_group t)
          (on_option (Holds Continues) (getfieldbyname src.fields h.hostreference)
            (fail-Continues h.hostreference h.lineno err_notdef_working)
            (prepare_text-Holds h list))
          (fail-Continues h.hostreference h.lineno 13))

map-Holds :
    (P Q : Out → Type 0) (o : Option Out) (f : Out → Out)
    → ((a : Out) → P a → Q (f a))
    → Holds P o
    → Holds Q (o >>= λ a. some (f a))
map-Holds P Q none f c h = tt
map-Holds P Q (some a) f c h = c a h

pub ppoutputprepare-Holds :
    (src : Source) (list : ExecList) → Holds (IsClosed between) (ppoutputprepare src list)
unfolding ppoutputprepare
ppoutputprepare-Holds src list = on_list (Holds (IsClosed between)) list.host_list tt (λ h.
    map-Holds Continues (IsClosed between) (prepare_variable src h list) _
      (λ rest c.
        using-IsClosed "OCESQLPrepare" sqlca (emit (arg (by_text list.prepare_name) ∷ []) rest)
          (arg-Continues (by_text list.prepare_name) rest c))
      (prepare_variable-Holds src h list))

-- A property of the output that is chosen, if one is.
abbrev pub Says : (Option Out → Type 0) → Answer → Type 0
Says P not_here = Unit
Says P (here o) = P o

-- `COMMIT_RELEASE` and `ROLLBACK_RELEASE`.
release-IsClosed :
    (statement : Bytes) (src : Source) (list : ExecList)
    → IsClosed between (then_ (output_transaction statement src list) (ppoutputdisconnect src list))
release-IsClosed statement src list =
    then-IsClosed between _ (ppoutputdisconnect src list)
      (output_transaction-IsClosed statement src list) (ppoutputdisconnect-IsClosed src list)

output_command-Says :
    (src : Source) (list : ExecList) (c : Command)
    → Says (Holds (IsClosed between)) (output_command src list c)
unfolding output_command ppoutputcommit ppoutputrollback
output_command-Says src list connect = ppoutputconnect-IsClosed src list
output_command-Says src list open_cursor = ppoutputopen-IsClosed src list
output_command-Says src list execute = ppoutputexecprepare-IsClosed src list
output_command-Says src list fetch = ppoutputfetch-Holds src list
output_command-Says src list commit = output_transaction-IsClosed (codes "COMMIT") src list
output_command-Says src list commit_release = release-IsClosed (codes "COMMIT") src list
output_command-Says src list rollback = output_transaction-IsClosed (codes "ROLLBACK") src list
output_command-Says src list rollback_release = release-IsClosed (codes "ROLLBACK") src list
output_command-Says src list changes = ppoutputother-Holds src list
output_command-Says src list prepare = ppoutputprepare-Holds src list
output_command-Says src list disconnect = ppoutputdisconnect-IsClosed src list
output_command-Says src list put_other = ppoutputother-Holds src list
output_command-Says src list elsewhere = tt

pub ppoutcontext-Says :
    (src : Source) (list : ExecList) → Says (Holds (IsClosed between)) (ppoutcontext src list)
unfolding ppoutcontext
ppoutcontext-Says src list = output_command-Says src list (command_of list)
