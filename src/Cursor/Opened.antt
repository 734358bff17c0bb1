-- ===== src/Cursor/Opened.antt =====
-- dblib/ocesql.c: when a cursor is open (`OCESQLCursorOpen`, `OCESQLCursorClose`), and the argument
-- counts of `_ocesqlExecParams`.
use cobol.Prelude.{
  >>=-eq-some, Bool, Bool-cases, Bytes, List, Option, Option-cases, [], ap, arith, false,
  if◌then◌else◌, inl, inr, length, ltb, neg, refl, some, str_eq, str_eq_iff, sym, true, ℕ, ◌>>=◌,
  ◌∙◌, ◌∷◌, ◌≡◌, ◌≢◌, ◌⊎◌,
}
use cobol.Sqlca.{sqlca_init, set_lib_error_status, lib_status, status_row}
use cobol.Pg.Interface.{Libpq}
use cobol.Conn.{Driver, set_result_status, cursor_close}
use cobol.Cursor.{Cursor, get_cursor_from_list}
use cobol.Cursor.Session.{Session, is_success, is_empty}
use cobol.Cursor.Life.{
  set_opened, exec_params_query, send_declare, finish_open, closed_first, open_cursor, close_cursor,
}

module _ {Var : Type 0} where
  set_opened-get :
      (cname : Bytes) (b : Bool) (cs : List (Cursor Var)) (c : Cursor Var)
      → get_cursor_from_list cname cs ≡ some c
      → get_cursor_from_list cname (set_opened cname b cs) ≡ some (record c { is_opened = b })
  unfolding set_opened get_cursor_from_list
  set_opened-get cname b [] c h = cc
  set_opened-get cname b (e ∷ cs) c h = ground (arith, set_opened-get cname b cs c)

  set_opened-get_other :
      (cname other : Bytes) (b : Bool) (cs : List (Cursor Var))
      → str_eq other cname ≡ false
      → get_cursor_from_list other (set_opened cname b cs) ≡ get_cursor_from_list other cs
  unfolding set_opened get_cursor_from_list
  set_opened-get_other cname other b [] h = refl
  set_opened-get_other cname other b (e ∷ cs) h =
      ground (arith, set_opened-get_other cname other b cs, str_eq_iff cname e.cname)

  get_cursor_from_list-cname :
      (cname : Bytes) (cs : List (Cursor Var)) (c : Cursor Var)
      → get_cursor_from_list cname cs ≡ some c
      → c.cname ≡ cname
  unfolding get_cursor_from_list
  get_cursor_from_list-cname cname [] c h = cc
  get_cursor_from_list-cname cname (e ∷ cs) c h =
      ground (arith, get_cursor_from_list-cname cname cs c, str_eq_iff cname e.cname)

is_opened-kept :
    {Var : Type 0} (c : Cursor Var) (b : Bool) → c.is_opened ≡ b → record c { is_opened = b } ≡ c
is_opened-kept c b h = ap (λ (v : Bool). record c { is_opened = v }) (sym h)

module _ {Db Res Var : Type 0} (pq : Libpq Db Res) where
  finish_open-cursors :
      (c : Cursor Var) (s : Session Db Res Var) (d : Driver Db Res) {s' : Session Db Res Var}
      → finish_open pq c s d ≡ (s', 0)
      → s'.cursors ≡ set_opened c.cname true s.cursors
  unfolding finish_open
  finish_open-cursors c s d h = ground arith

  -- Closing first leaves the cursor in the list, and the others as they were.
  closed_first-get :
      (cname : Bytes) (c : Cursor Var) (s : Session Db Res Var)
      → get_cursor_from_list cname s.cursors ≡ some c
      → let (s1, ready) = closed_first pq cname c s in
        ((e : Cursor Var) × (get_cursor_from_list cname s1.cursors ≡ some e))
        × ((other : Bytes)
            → str_eq other cname ≡ false
            → get_cursor_from_list other s1.cursors ≡ get_cursor_from_list other s.cursors)
  unfolding closed_first
  closed_first-get cname c s h = elim (Bool-cases c.is_opened) [
    | inl o ↦
        elim (Bool-cases (
          is_success
            (set_result_status pq c.connid (cursor_close pq c.connid cname s.driver)
              sqlca_init).1)) [
                | inl u ↦
                    rw (closed_first, o, u)
                      (
                        (record c { is_opened = false }, set_opened-get cname false s.cursors c h),
                        λ other n. set_opened-get_other cname other false s.cursors n,
                      )
                | inr u ↦ rw (closed_first, o, u) ((c, h), λ other n. refl)
              ]
    | inr o ↦ rw (closed_first, o) ((c, h), λ other n. refl)
  ]

  -- A cursor that is opened with the result 0 is open; no other cursor changes.
  pub open_cursor-opened :
      (realdata : Var → Option Bytes) (cname : Bytes) (s s' : Session Db Res Var)
      → open_cursor pq realdata cname s ≡ some (s', 0)
      → ((c : Cursor Var) × (get_cursor_from_list cname s'.cursors ≡ some c) × (c.is_opened ≡ true))
        × ((other : Bytes)
            → str_eq other cname ≡ false
            → get_cursor_from_list other s'.cursors ≡ get_cursor_from_list other s.cursors)
  unfolding open_cursor
  open_cursor-opened realdata [] s s' h = absurd (ground arith)
  open_cursor-opened realdata (q ∷ cname) s s' h =
      elim (Option-cases (get_cursor_from_list (q ∷ cname) s.cursors)) [
        | inl e ↦ absurd (ground arith)
        | inr (c, e) ↦
            let s1 : Session Db Res Var = (closed_first pq (q ∷ cname) c s).0 in
            let i : (send_declare pq realdata c s1 >>= λ d2. some (finish_open pq c s1 d2))
                ≡ some (s', 0) =
              ground arith in
            let (d2, x, f) =
              >>=-eq-some (send_declare pq realdata c s1) (λ d2. some (finish_open pq c s1 d2)) i in
            let n = get_cursor_from_list-cname (q ∷ cname) s.cursors c e in
            let l : s'.cursors ≡ set_opened (q ∷ cname) true s1.cursors =
              finish_open-cursors c s1 d2 {s' = s'} (ground arith)
              ∙ ap (λ (k : Bytes). set_opened k true s1.cursors) n in
            let ((e1, g), o) = closed_first-get (q ∷ cname) c s e in
            rw l (
              (
                record e1 { is_opened = true },
                set_opened-get (q ∷ cname) true s1.cursors e1 g,
                refl,
              ),
              λ other m. set_opened-get_other (q ∷ cname) other true s1.cursors m ∙ o other m,
            )
      ]

  -- Closing a cursor gives 0 or 1. With 0 the name is that of a cursor, which is closed then, and
  -- if it was closed before nothing is asked of the server. With 1 all cursors are as they were.
  pub close_cursor-closed :
      (cname : Bytes) (s : Session Db Res Var)
      → let (s', r) = close_cursor pq cname s in
        ((r ≡ 0)
          × ((c : Cursor Var) × (get_cursor_from_list cname s.cursors ≡ some c)
              × (get_cursor_from_list cname s'.cursors ≡ some (record c { is_opened = false }))
              × (c.is_opened ≡ false → s'.driver ≡ s.driver)))
        ⊎ ((r ≡ 1) × (s'.cursors ≡ s.cursors))
  unfolding close_cursor
  close_cursor-closed [] s = inr (refl, refl)
  close_cursor-closed (q ∷ cname) s =
      elim (Option-cases (get_cursor_from_list (q ∷ cname) s.cursors)) [
        | inl e ↦ rw (e, close_cursor) (inr (refl, refl))
        | inr (c, e) ↦ elim (Bool-cases c.is_opened) [
          | inl o ↦
              elim (Bool-cases (
                is_success
                  (set_result_status pq c.connid (cursor_close pq c.connid (q ∷ cname) s.driver)
                    sqlca_init).1)) [
                      | inl u ↦
                          rw (e, close_cursor, o, u)
                            (inl (
                              refl,
                              (
                                c,
                                ap some (is_opened-kept c true o),
                                set_opened-get (q ∷ cname) false s.cursors c e,
                                λ n. absurd (ground arith),
                              ),
                            ))
                      | inr u ↦ rw (e, close_cursor, o, u) (inr (refl, refl))
                    ]
          | inr o ↦
              rw (e, close_cursor, o)
                (inl (
                  refl,
                  (
                    c,
                    ap some (is_opened-kept c false o),
                    e ∙ ap some (sym (is_opened-kept c false o)),
                    λ n. refl,
                  ),
                ))
        ]
      ]

  -- A statement that is not empty and has parameters, but not as many as there are host variables,
  -- reaches no server and no cursor. `sqlcode` is -201 if there are more host variables than
  -- parameters, and -202 if there are fewer.
  pub exec_params_query-count :
      (id : ℕ) (query : Bytes) (n : ℕ) (values : List (Option Bytes)) (s : Session Db Res Var)
      → is_empty query ≡ false
      → n ≢ 0
      → length values ≢ n
      → let s' = exec_params_query pq id query n values s in
        (s'.driver ≡ s.driver)
        × (s'.cursors ≡ s.cursors)
        × (s'.sqlca.sqlcode ≡ (if ltb n (length values) then neg 201 else neg 202))
  unfolding exec_params_query set_lib_error_status lib_status status_row
  exec_params_query-count id query n values s q p l = ground arith
