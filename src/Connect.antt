-- ===== src/Connect.antt =====
-- dblib/ocesql.c: `CONNECT` and `DISCONNECT`. A variable of the environment that is not set is
-- `none`; the type of the database is checked by a constant.
pub mod Info
pub mod Logins
use cobol.Prelude.{
  ==_iff, >>=-eq-some, All, All-append, All-map, Bool, Bool-cases, Bytes, IsNeg, Lacks, List,
  Option, Option-cases, [], ap, append-nil, append_assoc, arith, codes, drop, drop-length-append,
  eq→str_eq, false, get_elem?, get_or, if◌then◌else◌, inl, inr, is_neg, leb, leb→le, length,
  length-append, length-drop, length-replicate, length-take, ltb, ltb_ℤ, ltb→lt, lt→ltb, map, neg,
  neg_part, negsuc, none, not, pos, pos_add, pos_part, refl, replicate, some, str_eq, str_eq_iff,
  str_eq_refl, str_eq→eq, sub_ℕ, suc, sym, take, take-append-drop, take-length-append, tests, true,
  zero, ℕ, ℤ, ◌%◌, ◌&&◌, ◌*◌, ◌++◌, ◌+ℤ◌, ◌+◌, ◌-◌, ◌/◌, ◌<◌, ◌==◌, ◌>>=◌, ◌^◌, ◌||◌, ◌↔◌, ◌∙◌, ◌∷◌,
  ◌≡◌, ◌≢◌, ◌≤◌, ◌⊎◌,
}
use cobol.Util.{oc_strndup, get_str_without_after_space}
use cobol.Sqlca.{sqlca_init, lib_error, ocpg_var_not_char}
use cobol.Sqlca.LibError
use cobol.Pg.Interface.{Libpq}
use cobol.Conn.{Driver, connect, exec, finish, resolve_connid, set_result_status, status}
use cobol.Cursor.Session.{Session, is_empty, is_success, resolve_id}
use cobol.Connect.Info.{Target, parse_name, connstr, first_cut}

-- `getenv`
abbrev pub Environment : Type 0
Environment = Bytes → Option Bytes

abbrev pub default_dbname : Bytes
default_dbname = codes "OCDB_DEFAULT_DBNAME"

-- What `_ocesqlConnect` and `_ocesqlConnectInformal` do with a text: one that is null or empty is
-- replaced by a variable.
unfoldable pub or_env : Environment → Bytes → Option Bytes → Option Bytes
or_env env key none = env key
or_env env key (some []) = env key
or_env env key (some (c ∷ s)) = some (c ∷ s)

abbrev pub client_encoding : Environment → Bytes
client_encoding env = elim (env (codes "OCDB_DB_CHAR")) [ none ↦ codes "SJIS" | some s ↦ s ]

module _ {Db Res : Type 0} (pq : Libpq Db Res) where
  -- The connections when `_ocesqlConnectMain` opens one: `none` if the name has one that works.
  unfoldable pub make_room : Bytes → Driver Db Res → Option (Driver Db Res)
  make_room conndbname d = elim (resolve_connid conndbname d.conns) [
    | none ↦ some d
    | some id ↦ if ltb 0 id then if status pq id d then none else some (finish pq id d) else some d
  ]

  -- `_ocesqlConnectMain` behind `OCDBConnect`. A name in use is the same number as a connection
  -- that failed.
  unfoldable pub begin :
      {Var : Type 0} → Session Db Res Var → Driver Db Res × Option ℕ → Session Db Res Var × ℕ
  unfolding is_success
  begin s (d, none) = (record s { driver = d; sqlca = lib_error LibError.connect sqlca_init }, 1)
  begin s (d, some id) =
      let d1 = exec pq id (codes "BEGIN") d in
      let (st, r) = set_result_status pq id d1 sqlca_init in
      (record s { driver = d1; sqlca = st }, if is_success r then 0 else 1)

  -- `OCESQLIDDisconnect`, and `OCESQLDisconnect` with the default name.
  unfoldable pub id_disconnect :
      {Var : Type 0} → Option Bytes → ℤ → Session Db Res Var → Session Db Res Var × ℕ
  unfolding resolve_id
  id_disconnect atdb atdblen s =
      let (s1, id) = resolve_id pq atdb atdblen s in
      elim id [
        | none ↦ (record s1 { sqlca = lib_error LibError.no_conn s1.sqlca }, 1)
        | some n ↦ (record s1 { driver = finish pq n s1.driver }, 0)
      ]

  -- `OCESQLDisconnect`
  unfoldable disconnect : {Var : Type 0} → Session Db Res Var → Session Db Res Var × ℕ
  unfolding id_disconnect
  disconnect s = id_disconnect (some default_dbname) (pos 19) s

module _ {Db Res Var : Type 0} (pq : Libpq Db Res) (env : Environment) where
  -- `_ocesqlConnectMain`
  unfoldable pub connect_main :
      Option Bytes
      → Option Bytes
      → Option Bytes
      → Bytes
      → Session Db Res Var
      → Option (Session Db Res Var × ℕ)
  unfolding begin make_room
  connect_main name user passwd conndbname s = elim (make_room pq conndbname s.driver) [
    | none ↦ some (record s { sqlca = sqlca_init }, 0)
    | some d ↦ connstr (parse_name name) user passwd >>= λ info. some (
        begin pq s (
          connect pq (env (codes "OCDB_PG_IGNORE_ERROR")) info conndbname true (client_encoding env)
            d))
  ]

  -- `_ocesqlConnect`; the lengths are those of the texts before them.
  unfoldable pub connect_session :
      Option Bytes
      → ℤ
      → Option Bytes
      → ℤ
      → Option Bytes
      → ℤ
      → Option Bytes
      → Session Db Res Var
      → Option (Session Db Res Var × ℕ)
  unfolding or_env connect_main
  connect_session user userlen passwd passwdlen name namelen atdb s =
      let text : Option Bytes → ℤ → Option Bytes =
        λ t n. get_str_without_after_space (oc_strndup t n) in
      connect_main (or_env env (codes "OCDB_DB_NAME") (text name namelen))
        (or_env env (codes "OCDB_DB_USER") (text user userlen))
        (or_env env (codes "OCDB_DB_PASS") (text passwd passwdlen))
        (elim atdb [ none ↦ default_dbname | some cid ↦ cid ]) s

  -- `_ocesqlConnectInformal`: `user/password@name`.
  unfoldable pub connect_informal :
      Option Bytes → ℤ → Option Bytes → Session Db Res Var → Option (Session Db Res Var × ℤ)
  unfolding or_env connect_main
  connect_informal conninfo conninfolen atdb s =
      elim (get_str_without_after_space (oc_strndup conninfo conninfolen)) [
        | none ↦ some (s, neg 1)
        | some info ↦
            let (login, dsn) = first_cut b'@' info in
            let (user, passwd) = first_cut b'/' login in
            connect_main (or_env env (codes "OCDB_DB_NAME") (get_str_without_after_space dsn))
              (or_env env (codes "OCDB_DB_USER") (get_str_without_after_space (some user)))
              (or_env env (codes "OCDB_DB_PASS") (get_str_without_after_space passwd))
              (elim atdb [ none ↦ default_dbname | some cid ↦ cid ]) s
            >>= λ (s', r). some (s', pos r)
      ]

  -- `OCESQLIDConnect`, whose result does not tell whether the connection is there.
  unfoldable pub id_connect :
      Option Bytes
      → ℤ
      → Option Bytes
      → ℤ
      → Option Bytes
      → ℤ
      → Option Bytes
      → ℤ
      → Session Db Res Var
      → Option (Session Db Res Var × ℕ)
  unfolding connect_session
  id_connect atdb atdblen user userlen passwd passwdlen name namelen s =
      elim (get_str_without_after_space (oc_strndup atdb atdblen)) [
        | none ↦ some (record s { sqlca = lib_error ocpg_var_not_char s.sqlca }, 1)
        | some cid ↦
            if is_empty cid
            then some (record s { sqlca = lib_error ocpg_var_not_char s.sqlca }, 1)
            else (connect_session user userlen passwd passwdlen name namelen (some cid) s
                >>= λ (s', r). some (s', 0))
      ]

  -- `OCESQLIDConnectShort`: everything comes from the environment.
  unfoldable pub id_connect_short :
      Option Bytes → ℤ → Session Db Res Var → Option (Session Db Res Var × ℕ)
  unfolding connect_session
  id_connect_short atdb atdblen s = elim (get_str_without_after_space (oc_strndup atdb atdblen)) [
    | none ↦ some (record s { sqlca = lib_error ocpg_var_not_char s.sqlca }, 1)
    | some cid ↦
        if is_empty cid
        then some (record s { sqlca = lib_error ocpg_var_not_char s.sqlca }, 1)
        else connect_session (some []) (pos 0) (some []) (pos 0) (some []) (pos 0) (some cid) s
  ]

  -- `OCESQLConnectShort`
  unfoldable connect_short : Session Db Res Var → Option (Session Db Res Var × ℕ)
  unfolding connect_session
  connect_short s = connect_session (some []) (pos 0) (some []) (pos 0) (some []) (pos 0) none s

  -- `OCESQLIDConnectInformal`, whose result does not tell whether the connection is there.
  unfoldable id_connect_informal :
      Option Bytes → ℤ → Option Bytes → ℤ → Session Db Res Var → Option (Session Db Res Var × ℕ)
  unfolding connect_informal
  id_connect_informal atdb atdblen conninfo conninfolen s =
      elim (get_str_without_after_space (oc_strndup atdb atdblen)) [
        | none ↦ some (record s { sqlca = lib_error ocpg_var_not_char s.sqlca }, 1)
        | some cid ↦
            if is_empty cid
            then some (record s { sqlca = lib_error ocpg_var_not_char s.sqlca }, 1)
            else (connect_informal conninfo conninfolen (some cid) s >>= λ (s', r). some (s', 0))
      ]
