-- ===== src/Lib.antt =====
-- The run-time library of Open COBOL ESQL 1.2, by which a COBOL program reaches PostgreSQL.
--
-- The precompiler turns each `EXEC SQL` of a program into calls of the library's entry points
-- (dblib/ocesql.c), which convert the program's fields, keep the cursors, and go through the list
-- of connections (dblib/ocdb.c) to libpq (dblib/ocpgsql.c). Every call leaves its outcome in the
-- program's communication area, `struct sqlca_t`. All paths here are relative to
-- database-integration/lib/Open-COBOL-ESQL-1.2.
--
-- - Prelude: shared names, lists and integers over the native numbers, texts as bytes.
-- - Util: the string helpers of dblib/ocdbutil.c.
-- - Field: `create_realdata` (Field.Load) and `create_coboldata` (Field.Store) of dblib/ocesql.c, as
--   functions between a field's bytes and the text of its value. The buffers that the code works in
--   are lists of their size, and a write outside one gives `none` (Field.Buffer); Field.Place is the
--   alignment of digits that the numeric types share, Field.Packed the nibbles of COMP-3.
--   Field.RoundTrip, Field.LeadingSign and Field.Text relate the two directions, Field.Bounds is on
--   the bytes written, Field.Occurs on the storage of the program and the tables in it,
--   Field.Misplaced on values that the code stores wrongly.
-- - Sqlca: the communication area, and the errors that the library itself sets.
-- - Pg: dblib/ocpgsql.c over the record `Libpq` of the client library's functions (Pg.Interface),
--   which is a parameter: a state of servers and connections, and results by handle.
-- - Conn: dblib/ocdb.c. The global list of connections, the next id and `rollback_one_mode` are the
--   record `Driver`; an operation takes it and returns the new one. Conn.Lifetime has the operations
--   as a relation of steps, with the states that they reach.
-- - Cursor: the lists of prepared statements and cursors of dblib/ocesql.c, and Cursor.Session the
--   statements that run over them: `_ocesqlExec` is `exec_query`, `OCESQLIDExec` is `id_exec`.
--   Cursor.Life has `OCESQLCursorOpen`, `OCESQLCursorClose` and `_ocesqlExecParams`; what
--   `create_realdata` makes of a parameter when a cursor is opened is an argument there.
--   Cursor.Prepared has prepared statements, Cursor.Fetch the two fetches, which write rows into the
--   program's storage: `Program` joins a session, the host variables and this storage. Below it are
--   `SELECT INTO`, statements over a table, and the entry points that take a connection's name.
-- - Hostvar: the host variables of a statement, between `OCESQLStartSQL` and `OCESQLEndSQL`.
-- - Connect: `_ocesqlConnect` and its kin of dblib/ocesql.c, over an environment that is a parameter.
--   Connect.Info takes a database name apart and writes the text for libpq.
-- - Precompiler.Filler: `sql_string` of ocesql/ppout.c, which writes the text of a statement as the
--   value of COBOL items; what it writes is the list of its lines.
-- - Precompiler.Fields: the description of the program's fields, a tree of first children and next
--   sisters, with the functions on it of ocesql/parser.y and ocesql/ppout.c.
-- - Precompiler.Picture: `build_picture`, the loops over the text as steps from byte to byte.
-- - Precompiler.Copying: the loop of `ppoutput` over the lines of a source, which are a list.
-- - Precompiler.Names: the names of the files that ocesql/ocesql.c reads and writes, over an
--   environment that is an argument, and the prefix of cursor names that its `main` makes.
-- - Precompiler.Statement: the lists of a statement that ocesql/ocesql.c builds in global variables,
--   the record `Parsing`, and `put_exec_list`.
-- - Precompiler.Calls: the calls that ocesql/ppout.c writes for a statement, as a list of lines, with
--   the messages (`Out`). A function that returns early gives what it has written so far. `ppbuff`
--   is in Precompiler.Calls.Select, with the items of WORKING-STORAGE that it writes, the functions that `ppoutcontext` chooses from are in
--   Precompiler.Calls.Statements and Precompiler.Calls.Context. Precompiler.Calls.Reader reads lines
--   as a COBOL compiler does.
-- - Tests: runs at concrete inputs, over a client library of their own.
--
-- A C string is the list of its bytes before the NUL, a null pointer is `none`, and an `int` that
-- may be negative is an integer; the sizes in question are far below 2 ^ 31, which the one theorem
-- that needs it says. Allocation does not fail. The code is that of a little-endian machine with
-- `PGSQL_MODE_ON`. The fuel of `show` is one more than the number; no number has more digits. That
-- of `items` is one more than the text is long, and every item takes a byte.
--
-- Not modelled: logging (dblib/ocdblog.c); of the precompiler, the automata that flex and bison
-- generate, the building of the tree of fields, the inclusion of files, and the options of the
-- command line; the accessors of dblib/ocdb.c that
-- no entry point calls; and the COBOL programs of the repository.
pub mod Prelude
pub mod Util
pub mod Field
pub mod Sqlca
pub mod Pg
pub mod Conn
pub mod Cursor
pub mod Hostvar
pub mod Tests
pub mod Connect
pub mod Precompiler
