-- ===== src/Precompiler/Calls/Table.antt =====
-- What is said of the table of a group, at the time of a fetch, a SELECT INTO or a change.
use cobol.Prelude.{Bool-cases, arith, if◌then◌else◌, inl, inr, not, pos, refl, ◌==◌, ◌≡◌}
use cobol.Precompiler.Fields.{CbField, FieldTree, get_host_group_length}
use cobol.Precompiler.Fields.Groups.{
  sisters, total, table_of, get_host_group_length_lem, get_host_group_table_info_lem,
}
use cobol.Precompiler.Calls.Statements.{group_table}

-- The length of a table is the sum of the lengths of the group's fields. Its iteration is the
-- group's OCCURS, and without one the least OCCURS of its fields, 0 if a field has none, -1 if
-- the group has no fields.
pub group_table_lem :
    (parent : CbField) (child : FieldTree)
    → group_table parent child ≡ (
      if parent.occurs == 0 then table_of (sisters child) else pos parent.occurs,
      (total (sisters child), not (parent.occurs == 0)),
    )
unfolding group_table
group_table_lem parent child =
    let info = get_host_group_table_info_lem child in
    let length : get_host_group_length child 0 ≡ total (sisters child) =
      omega (arith, get_host_group_length_lem child 0) in
    elim (Bool-cases (parent.occurs == 0)) [
      | inl e ↦ rw (e, info) refl
      | inr e ↦ rw (e, length) refl
    ]
