-- ===== src/Precompiler/Calls/Lost.antt =====
-- Statements of which `ppbuff` of ocesql/ppout.c writes nothing.
use cobol.Prelude.{Bytes, List, [], codes, ◌∷◌}

-- The names of commands for which calls or items are written.
abbrev pub known_commands : List Bytes
known_commands =
    codes "CONNECT"
    ∷ codes "OPEN"
    ∷ codes "EXECUTE"
    ∷ codes "FETCH"
    ∷ codes "COMMIT"
    ∷ codes "COMMIT_RELEASE"
    ∷ codes "ROLLBACK"
    ∷ codes "ROLLBACK_RELEASE"
    ∷ codes "INSERT"
    ∷ codes "UPDATE"
    ∷ codes "DELETE"
    ∷ codes "PREPARE"
    ∷ codes "DISCONNECT"
    ∷ codes "INCLUDE"
    ∷ codes "SELECT"
    ∷ codes "CLOSE"
    ∷ codes "WORKING_END"
    ∷ codes "VARYING_PARAM"
    ∷ []
