-- ===== src/Cursor/Names.antt =====
-- dblib/ocesql.c: what declaring a cursor does to the list of cursors.
use cobol.Prelude.{arith, Option, zero, suc, pos, Bytes, List, [], arith, false, none, some, ℕ, ◌≡◌}
use cobol.Cursor.{Cursor}

module _ {Var : Type 0} where
  -- The list that a declaration with `n` parameters keeps.
  abbrev pub kept_vars : ℕ → Option (List Var) → List Var
  kept_vars zero vars = []
  kept_vars (suc n) none = []
  kept_vars (suc n) (some vs) = vs

  -- The name leads to a closed cursor with the query, the parameters and the connection, which no
  -- row has been taken from, and which keeps the prepared statement of `c`.
  pub record IsDeclared (id : ℕ) (cname query : Bytes) (n : ℕ) (vars : Option (List Var))
      (c e : Cursor Var) : Type 0 where
    pub on_connection : e.connid ≡ id
    pub is_named : e.cname ≡ cname
    pub asks : e.query ≡ some query
    pub takes : e.n_params ≡ n
    pub holds : e.plist ≡ kept_vars n vars
    pub is_closed : e.is_opened ≡ false
    pub is_fresh : e.tuples ≡ pos 0
    pub is_prepared : e.sp ≡ c.sp
