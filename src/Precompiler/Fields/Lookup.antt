-- ===== src/Precompiler/Fields/Lookup.antt =====
-- `getfieldbyname` of ocesql/parser.y as a search in a list.
use cobol.Prelude.{
  Bool-cases, Bytes, List, Option, Option-cases, [], if◌then◌else◌, inl, inr, none, refl, some,
  str_eq, ◌++◌, ◌∷◌, ◌≡◌,
}
use cobol.Precompiler.Fields.{
  CbField, FieldTree, no_field, field, Found, getfieldbynamefrom, getfieldbyname,
}

-- The fields of a description: each before its sisters, and these before its children.
pub fields_of : FieldTree → List CbField
fields_of no_field = []
fields_of (field f children sister) = f ∷ (fields_of sister ++ fields_of children)

-- The first field of a list that has the name.
pub first_named : Bytes → List CbField → Option CbField
first_named name [] = none
first_named name (f ∷ fs) = if str_eq name f.sname then some f else first_named name fs

abbrev pub field_found : Option Found → Option CbField
field_found none = none
field_found (some g) = some g.found

abbrev pub or_else {ℓ} : {A : Type ℓ} → Option A → Option A → Option A
or_else none p = p
or_else (some a) p = some a

first_named-append :
    (name : Bytes) (fs gs : List CbField)
    → first_named name (fs ++ gs) ≡ or_else (first_named name fs) (first_named name gs)
unfolding first_named
first_named-append name [] gs = refl
first_named-append name (f ∷ fs) gs =
    let rest = first_named-append name fs gs in
    elim (Bool-cases (str_eq name f.sname)) [ inl e ↦ rw e refl | inr e ↦ rw e rest ]

getfieldbynamefrom-first :
    (parent : Option (CbField × FieldTree)) (name : Bytes) (t : FieldTree)
    → field_found (getfieldbynamefrom parent name t) ≡ first_named name (fields_of t)
unfolding getfieldbynamefrom fields_of first_named
getfieldbynamefrom-first parent name no_field = refl
getfieldbynamefrom-first parent name (field f children sister) =
    let by_sister = getfieldbynamefrom-first parent name sister in
    let by_children = getfieldbynamefrom-first (some (f, children)) name children in
    let split = first_named-append name (fields_of sister) (fields_of children) in
    elim (Bool-cases (str_eq name f.sname)) [
      | inl e ↦ rw e refl
      | inr e ↦
          rw (e, split, ← by_sister, ← by_children)
            (elim (Option-cases (getfieldbynamefrom parent name sister)) [
              | inl n ↦ rw n refl
              | inr (g, n) ↦ rw n refl
            ])
    ]

-- The field that `getfieldbyname` finds is the first of that name in the description, where each
-- field stands before its sisters and these before its children; none exactly if there is none.
pub getfieldbyname-first :
    (description : FieldTree) (name : Bytes)
    → field_found (getfieldbyname description name) ≡ first_named name (fields_of description)
unfolding getfieldbyname
getfieldbyname-first description name = getfieldbynamefrom-first none name description
