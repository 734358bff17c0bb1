-- ===== src/Precompiler/Calls/Closed/Whole.antt =====
-- Whatever `ppbuff` of ocesql/ppout.c writes for a statement without items is whole calls.
use cobol.Prelude.{
  ◌||◌, ◌>>=◌, Bool, List, Option, [], codes, false, if◌then◌else◌, pos, refl, some, str_eq, true,
  ℕ, ◌==◌, ◌∷◌, ◌≡◌,
}
use mathlib.Core.Path.{subst}
use cobol.Precompiler.Fields.{getfieldbyname, err_notdef_working}
use cobol.Precompiler.Calls.{
  by_reference, by_text, arg, copy_sqlca, sqlca, int, ResHostReference, ExecList, Source, Out,
  written, emit, then_, ppoutputendcall,
}
use cobol.Precompiler.Calls.Params.{is_group, output_params}
use cobol.Precompiler.Calls.Statements.{entry_name, group_table, is_zero, Table, no_table}
use cobol.Precompiler.Calls.Context.{Answer, not_here, here, ppoutcontext}
use cobol.Precompiler.Calls.Select.{
  select_args, output_select, into_entry, into_lines, output_select_into, output_prepared_declare,
  output_close, is_named, output_items, output_calls, output_rest, ppbuff,
}
use cobol.Precompiler.Calls.Reader.{Call, between, read_from, read_calls}
use cobol.Precompiler.Calls.Closed.{
  IsClosed, Continues, on_option, on_list, on_if, then-IsClosed, with_type-IsClosed,
  with_dbname-Continues, end-Continues, ppoutputendcall-Continues, using-IsClosed, arg-Continues,
}
use cobol.Precompiler.Calls.Closed.Params.{
  nothing-IsClosed, fail-IsClosed, output_params-IsClosed, into_group-IsClosed,
  into_fields-IsClosed,
}
use cobol.Precompiler.Calls.Closed.Statements.{
  Holds, end_lines-Continues, start_lines-IsClosed, in_table-IsClosed,
}
use cobol.Precompiler.Calls.Closed.Context.{Says, ppoutcontext-Says}

select_args-Continues :
    (list : ExecList) (rest : Out) → Continues rest → Continues (select_args list rest)
unfolding select_args
select_args-Continues list rest c =
    let d = arg-Continues (by_reference list.sql_name) rest c in
    on_if (λ ls. Continues (emit ls (emit (arg (by_reference list.sql_name) ∷ []) rest)))
      (is_named list.cursor_name) (arg-Continues (by_text list.cursor_name) _ d) d

output_select-IsClosed :
    (src : Source) (list : ExecList) → IsClosed between (output_select src list)
unfolding output_select
output_select-IsClosed src list =
    on_if (IsClosed between) (list.hostreference_count == 0)
      (using-IsClosed _ sqlca _ (
        with_dbname-Continues src list _
          (select_args-Continues list _ (ppoutputendcall-Continues list))))
      (start_lines-IsClosed _ (
        then-IsClosed between (output_params src.fields list.host_list (pos 0)).0 _
          (output_params-IsClosed src.fields list.host_list (pos 0))
          (using-IsClosed _ sqlca _ (
            with_dbname-Continues src list _
              (select_args-Continues list _ (arg-Continues _ _ (end_lines-Continues list)))))))

into_entry-IsClosed :
    (list : ExecList) (table : Table) (rest : Out)
    → Continues rest
    → IsClosed between (emit (into_entry list table) rest)
into_entry-IsClosed list table rest c =
    on_if (λ ls. IsClosed between (emit ls rest)) (is_zero table.0)
      (using-IsClosed (entry_name list "OCESQLExecSelectIntoOne" "OCESQLIDExecSelectIntoOne") sqlca
        rest c)
      (in_table-IsClosed table
        (entry_name list "OCESQLExecSelectIntoOccurs" "OCESQLIDExecSelectIntoOccurs") sqlca rest c)

into_lines-IsClosed :
    (src : Source) (list : ExecList) (table : Table) (n : ℕ)
    → IsClosed between (into_lines src list table n)
unfolding into_lines
into_lines-IsClosed src list table n =
    then-IsClosed between (output_params src.fields list.host_list table.0).0 _
      (output_params-IsClosed src.fields list.host_list table.0)
      (into_entry-IsClosed list table _ (
        with_dbname-Continues src list _ (
          arg-Continues (by_reference list.sql_name) (emit (arg _ ∷ arg (int n) ∷ []) _) (
            arg-Continues _ (emit (arg (int n) ∷ []) _)
              (arg-Continues (int n) _ (end_lines-Continues list))))))

output_select_into-IsClosed :
    (src : Source) (list : ExecList) (h : ResHostReference)
    → IsClosed between (output_select_into src list h)
unfolding output_select_into
output_select_into-IsClosed src list h = start_lines-IsClosed _ (
    with_type-IsClosed between src h.hostreference h.lineno _ (λ t.
      on_if (IsClosed between) (is_group t)
        (on_option (IsClosed between) (getfieldbyname src.fields h.hostreference)
          (fail-IsClosed h.hostreference h.lineno err_notdef_working)
          (λ p.
            let table = group_table p.found p.children in
            into_group-IsClosed src p.children h.lineno table.0 0 (into_lines src list table)
              (into_lines-IsClosed src list table)))
        (into_fields-IsClosed src list.res_host_list 0 (into_lines src list no_table)
          (into_lines-IsClosed src list no_table))))

output_close-IsClosed : (list : ExecList) → IsClosed between (output_close list)
unfolding output_close read_from
output_close-IsClosed list h = (_, refl)

output_prepared_declare-IsClosed :
    (src : Source) (list : ExecList) (rest : Out)
    → IsClosed between rest
    → IsClosed between (output_prepared_declare src list rest)
unfolding output_prepared_declare ppoutputendcall then_
output_prepared_declare-IsClosed src list rest c =
    using-IsClosed (entry_name list "OCESQLPreparedCursorDeclare" "OCESQLIDPreparedCursorDeclare")
      sqlca _
      (with_dbname-Continues src list _ (
        arg-Continues (by_text list.cursor_name) (emit (arg (by_text list.prepare_name) ∷ []) _)
          (arg-Continues (by_text list.prepare_name) _ (end-Continues list.period rest c))))

included-IsClosed : (b : Bool) → IsClosed between (written (if b then copy_sqlca ∷ [] else []))
unfolding read_from
included-IsClosed true h = ([], refl)
included-IsClosed false h = ([], refl)

output_calls-IsClosed : (src : Source) (list : ExecList) → IsClosed between (output_calls src list)
unfolding output_calls
output_calls-IsClosed src list =
    let is = str_eq list.command_name in
    let closed =
      on_if (IsClosed between) (is (codes "CLOSE")) (output_close-IsClosed list) nothing-IsClosed in
    on_if (IsClosed between) (is (codes "SELECT"))
      (on_list (IsClosed between) list.res_host_list (output_select-IsClosed src list)
        (output_select_into-IsClosed src list))
      (on_if (IsClosed between) (is_named list.prepare_name)
        (output_prepared_declare-IsClosed src list _ closed) closed)

output_items-nothing :
    (src : Source) (list : ExecList)
    → str_eq list.command_name (codes "WORKING_END") ≡ false
    → str_eq list.command_name (codes "VARYING_PARAM") ≡ false
    → output_items src list ≡ some (written [])
unfolding output_items
output_items-nothing src list w v = rw (w, v) refl

output_rest-Holds :
    (src : Source) (list : ExecList)
    → str_eq list.command_name (codes "WORKING_END") ≡ false
    → str_eq list.command_name (codes "VARYING_PARAM") ≡ false
    → Holds (IsClosed between) (output_rest src list)
unfolding output_rest
output_rest-Holds src list w v =
    let included : Out =
      written (if str_eq list.command_name (codes "INCLUDE") then copy_sqlca ∷ [] else []) in
    let rest : Holds (IsClosed between) (
        output_items src list >>= λ items.
        some (then_ included (then_ items (output_calls src list)))) =
      rw (output_items-nothing src list w v) (
        then-IsClosed between included (then_ (written []) (output_calls src list))
          (included-IsClosed (str_eq list.command_name (codes "INCLUDE")))
          (then-IsClosed between (written []) (output_calls src list) nothing-IsClosed
            (output_calls-IsClosed src list))) in
    on_if (Holds (IsClosed between))
      (str_eq list.command_name (codes "INCFILE")
        || str_eq list.command_name (codes "HOST_BEGIN")
        || str_eq list.command_name (codes "HOST_END")
        || str_eq list.command_name (codes "WORKING_BEGIN"))
      {x = some (written [])} nothing-IsClosed rest

on_answer :
    (P : Option Out → Type 0) (a : Answer) (o : Option Out)
    → Says P a
    → P o
    → P (elim a [ here p ↦ p | not_here ↦ o ])
on_answer P not_here o p q = q
on_answer P (here r) o p q = p

ppbuff-Holds :
    (src : Source) (list : ExecList)
    → str_eq list.command_name (codes "WORKING_END") ≡ false
    → str_eq list.command_name (codes "VARYING_PARAM") ≡ false
    → Holds (IsClosed between) (ppbuff src list)
unfolding ppbuff
ppbuff-Holds src list w v =
    on_answer (Holds (IsClosed between)) (ppoutcontext src list) (output_rest src list)
      (ppoutcontext-Says src list) (output_rest-Holds src list w v)

-- Whatever `ppbuff` writes without a message of an error, for a statement that is not the end of
-- WORKING-STORAGE and not a field with a VARYING clause, a COBOL compiler reads it to its end as a
-- sequence of calls, each closed and with arguments exactly if it has USING.
pub ppbuff-AreCalls :
    (src : Source) (list : ExecList) (o : Out)
    → str_eq list.command_name (codes "WORKING_END") ≡ false
    → str_eq list.command_name (codes "VARYING_PARAM") ≡ false
    → ppbuff src list ≡ some o
    → o.errors ≡ []
    → (cs : List Call) × (read_calls o.lines ≡ some cs)
unfolding read_calls
ppbuff-AreCalls src list o w v h = subst (Holds (IsClosed between)) h (ppbuff-Holds src list w v)
