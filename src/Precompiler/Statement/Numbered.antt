-- ===== src/Precompiler/Statement/Numbered.antt =====
-- The host variables of a statement are numbered by their places, and counted right.
use cobol.Prelude.{
  All, All-append, Bool, Bytes, List, [], arith, false, length, refl, some, suc, true, ℕ, ◌++◌, ◌+◌,
  ◌∷◌, ◌≡◌,
}
use cobol.Precompiler.Calls.{HostReference, ExecList}
use cobol.Precompiler.Statement.{
  Parsing, begin_statement, cb_add_text_list, cb_search_list, cb_host_list_add,
  cb_res_host_list_add, cb_set_cursorname, cb_set_dbname, cb_set_prepname, put_exec_list, exec_of,
}

-- The numbers of the variables count on from `n`.
pub AreNumbered : ℕ → List HostReference → Type 0
AreNumbered n [] = Unit
AreNumbered n (h ∷ hs) = (h.hostno ≡ suc n) × AreNumbered (suc n) hs

-- The variables are numbered from 1, and the count is their number.
abbrev pub IsComplete : ExecList → Type 0
IsComplete e = (e.hostreference_count ≡ length e.host_list) × AreNumbered 0 e.host_list

-- What the actions of the parser do in a statement, and the variables that the scanner sets.
pub data InStatement : Parsing → Parsing → Type 0 where
  adds_text :
      (ts us : List Bytes) {p q : Parsing} → cb_add_text_list ts us p ≡ some q → InStatement p q
  adds_host : (text : Bytes) (p : Parsing) → InStatement p (cb_host_list_add text p).0
  adds_res_host : (text : Bytes) (p : Parsing) → InStatement p (cb_res_host_list_add text p)
  names_cursor : (id text : Bytes) (p : Parsing) → InStatement p (cb_set_cursorname id text p)
  names_db : (text : Bytes) (p : Parsing) → InStatement p (cb_set_dbname text p)
  names_prepared : (text : Bytes) (p : Parsing) → InStatement p (cb_set_prepname text p)
  scans :
      (command sql : Bytes) (period other put : Bool) (line : ℕ) (p : Parsing)
      → InStatement p (record p {
        command_name = command;
        sql_name = sql;
        period = period;
        conn_use_other_db = other;
        command_putother = put;
        hostlineno = line;
      })

-- The states while a source is parsed, in a statement or between statements.
pub data Reachable : Bool → Parsing → Type 0 where
  at_start : (p : Parsing) → p.exec_list ≡ [] → Reachable false p
  begins : {p : Parsing} → Reachable false p → Reachable true (begin_statement p)
  goes_on : {p q : Parsing} → Reachable true p → InStatement p q → Reachable true q
  puts : {p : Parsing} → Reachable true p → Reachable false (put_exec_list p)

AreNumbered-append :
    (n : ℕ) (hs : List HostReference) (h : HostReference)
    → AreNumbered n hs
    → h.hostno ≡ suc (n + length hs)
    → AreNumbered n (hs ++ (h ∷ []))
unfolding AreNumbered
AreNumbered-append n [] h a e = (omega (arith, e), tt)
AreNumbered-append n (g ∷ hs) h (a, bs) e =
    (a, AreNumbered-append (suc n) hs h bs (omega (arith, e)))

-- In a statement nothing is counted yet, and the variables so far are numbered.
record IsOpen (p : Parsing) : Type 0 where
  uncounted : p.hostreference_count ≡ 0
  numbered : AreNumbered 0 p.host_reference_list
  listed : All IsComplete p.exec_list

InStatement-IsOpen : {p q : Parsing} → InStatement p q → IsOpen p → IsOpen q
unfolding cb_host_list_add cb_search_list cb_res_host_list_add cb_set_cursorname cb_set_dbname
    cb_set_prepname cb_add_text_list
InStatement-IsOpen (adds_text [] us e) o = cc e
InStatement-IsOpen (adds_text (t ∷ ts) us {p} {q} e) o =
    let r : record p { sql_list = (t ∷ ts) ++ us } ≡ q = cc e in
    rw (← r) (record { uncounted = o.uncounted; numbered = o.numbered; listed = o.listed })
InStatement-IsOpen (adds_host text p) o = record {
  uncounted = o.uncounted;
  numbered =
      AreNumbered-append 0 p.host_reference_list
        (record {
          hostreference = text;
          hostno = length p.host_reference_list + 1;
          lineno = p.hostlineno;
        })
        o.numbered (omega arith);
  listed = o.listed;
}
InStatement-IsOpen (adds_res_host text p) o = record {
  uncounted = o.uncounted;
  numbered = o.numbered;
  listed = o.listed;
}
InStatement-IsOpen (names_cursor id text p) o = record {
  uncounted = o.uncounted;
  numbered = o.numbered;
  listed = o.listed;
}
InStatement-IsOpen (names_db text p) o = record {
  uncounted = o.uncounted;
  numbered = o.numbered;
  listed = o.listed;
}
InStatement-IsOpen (names_prepared text p) o = record {
  uncounted = o.uncounted;
  numbered = o.numbered;
  listed = o.listed;
}
InStatement-IsOpen (scans command sql period other put line p) o = record {
  uncounted = o.uncounted;
  numbered = o.numbered;
  listed = o.listed;
}

-- In a statement the invariant, between statements what it says of the list.
abbrev IsFine : Bool → Parsing → Type 0
IsFine true p = IsOpen p
IsFine false p = All IsComplete p.exec_list

Reachable-IsFine : {b : Bool} {p : Parsing} → Reachable b p → IsFine b p
unfolding begin_statement put_exec_list AreNumbered
Reachable-IsFine (at_start p e) = rw e tt
Reachable-IsFine (begins r) = record {
  uncounted = refl;
  numbered = tt;
  listed = Reachable-IsFine r;
}
Reachable-IsFine (goes_on r s) = InStatement-IsOpen s (Reachable-IsFine r)
Reachable-IsFine (puts {p} r) =
    let o : IsOpen p = Reachable-IsFine r in
    All-append IsComplete p.exec_list
      (exec_of p (p.hostreference_count + length p.host_reference_list) ∷ []) o.listed
      ((omega (arith, o.uncounted), o.numbered), tt)

-- At the end of any source, each statement counts its host variables right, and their numbers,
-- which stand for them in its text, are their places from 1 on.
pub Reachable-IsComplete : {p : Parsing} → Reachable false p → All IsComplete p.exec_list
Reachable-IsComplete r = Reachable-IsFine r
