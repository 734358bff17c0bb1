-- ===== src/Precompiler/Fields.antt =====
-- The fields of the COBOL program, as ocesql/parser.y describes them (its functions stand in
-- parser.c too), and the types that its host variables have in the run-time library. A field holds
-- its first child and its next sister; the parent is the one that it is reached from, which is how
-- `cb_build_field_tree` sets the pointer of every field that can be reached.
pub mod Lookup
pub mod Groups
use cobol.Prelude.{
  ==_iff, >>=-eq-some, All, All-append, All-map, Bool, Bool-cases, Bytes, IsNeg, Lacks, List,
  Option, Option-cases, [], ap, append-nil, append_assoc, arith, codes, drop, drop-length-append,
  eq→str_eq, false, get_elem?, get_or, if◌then◌else◌, inl, inr, is_neg, leb, leb→le, length,
  length-append, length-drop, length-replicate, length-take, ltb, ltb_ℤ, ltb→lt, lt→ltb, map, neg,
  neg_part, negsuc, none, not, pos, pos_add, pos_part, refl, replicate, some, str_eq, str_eq_iff,
  str_eq_refl, str_eq→eq, sub_ℕ, suc, sym, take, take-append-drop, take-length-append, tests, true,
  zero, ℕ, ℤ, ◌%◌, ◌&&◌, ◌*◌, ◌++◌, ◌+ℤ◌, ◌+◌, ◌-◌, ◌/◌, ◌<◌, ◌==◌, ◌>>=◌, ◌^◌, ◌||◌, ◌↔◌, ◌∙◌, ◌∷◌,
  ◌≡◌, ◌≢◌, ◌≤◌, ◌⊎◌,
}

-- `enum oc_usage`
pub data Usage : Type 0 where
  none_given : Usage
  float : Usage
  double : Usage
  packed : Usage
  binary_native : Usage
  other : Usage

-- `struct cb_field` without its pointers.
pub record CbField : Type 0 where
  pub sname : Bytes
  pub level : ℕ
  pub usage : Usage
  pub occurs : ℕ
  pub pictype : ℕ
  pub picnsize : ℕ
  pub scale : ℕ
  pub have_sign : Bool
  pub sign_leading : Bool
  pub separate : Bool

-- The pointers `children` and `sister`; `no_field` is NULL.
pub data FieldTree : Type 0 where
  no_field : FieldTree
  field : CbField → FieldTree → FieldTree → FieldTree

-- A field that was found, with its `children` and its `parent`.
pub record Found : Type 0 where
  pub found : CbField
  pub children : FieldTree
  pub parent : Option (CbField × FieldTree)

unfoldable pub getfieldbynamefrom : Option (CbField × FieldTree) → Bytes → FieldTree → Option Found
getfieldbynamefrom parent name no_field = none
getfieldbynamefrom parent name (field f children sister) =
    let by_sister = getfieldbynamefrom parent name sister in
    let by_children = getfieldbynamefrom (some (f, children)) name children in
    if str_eq name f.sname
    then some (record { found = f; children = children; parent = parent })
    else elim by_sister [ some g ↦ some g | none ↦ by_children ]

-- The first argument is `description_field`.
unfoldable pub getfieldbyname : FieldTree → Bytes → Option Found
unfolding getfieldbynamefrom
getfieldbyname fs name = getfieldbynamefrom none name fs

abbrev pub pic_numeric : ℕ
pic_numeric = 2

abbrev pub pic_alphanumeric : ℕ
pic_alphanumeric = 3

abbrev pub pic_national : ℕ
pic_national = 4

abbrev pub pic_alphanumeric_varying : ℕ
pic_alphanumeric_varying = 11

abbrev pub pic_national_varying : ℕ
pic_national_varying = 12

abbrev pub hvartype_group : ℕ
hvartype_group = 22

abbrev pub err_notdef_working : ℕ
err_notdef_working = 1

abbrev pub err_notdef_conversion : ℕ
err_notdef_conversion = 2

abbrev pub err_not_supported_usage : ℕ
err_not_supported_usage = 30

-- What `gethostvarianttype` gives for a variable: `type` is `none` where it is never assigned.
pub record HostType : Type 0 where
  pub type : Option ℕ
  pub digits : ℕ
  pub scale : ℤ

pub data Looked : Type 0 where
  looked : HostType → Looked
  error : ℕ → Looked

-- The type of a numeric field.
unfoldable pub numeric_type : CbField → Option ℕ
numeric_type p =
    if p.have_sign
    then elim p.usage [
      | Usage.packed ↦ some 9
      | Usage.binary_native ↦ some 14
      | Usage.none_given ↦
          if p.sign_leading
          then if p.separate then some 4 else some 5
          else if p.separate
          then some 2
          else some 3
      | _ ↦ none
    ]
    else elim p.usage [
      | Usage.packed ↦ some 8
      | Usage.binary_native ↦ some 13
      | Usage.none_given ↦ some 1
      | _ ↦ none
    ]

-- Whether a field of the list has children.
unfoldable pub any_children : FieldTree → Bool
any_children no_field = false
any_children (field f no_field sister) = any_children sister
any_children (field f (field g cs ss) sister) = true

unfoldable pub field_host_type : CbField → FieldTree → Looked
unfolding numeric_type any_children
field_host_type p children =
    let typed : Option ℕ → Looked =
      λ t. looked (record { type = t; digits = p.picnsize; scale = neg p.scale }) in
    if p.pictype == 0
    then (if ltb 0 p.occurs && any_children children
        then error err_notdef_conversion
        else typed (some hvartype_group))
    else if p.pictype == pic_alphanumeric
    then typed (some 16)
    else if p.pictype == pic_national
    then typed (some 24)
    else if p.pictype == pic_numeric
    then elim (numeric_type p) [ some t ↦ typed (some t) | none ↦ error err_not_supported_usage ]
    else if p.pictype == pic_alphanumeric_varying
    then typed (some 30)
    else if p.pictype == pic_national_varying
    then typed (some 31)
    else typed none

unfoldable pub gethostvarianttype : FieldTree → Bytes → Looked
unfolding getfieldbyname field_host_type
gethostvarianttype fs name = elim (getfieldbyname fs name) [
  | none ↦ error err_notdef_working
  | some p ↦ field_host_type p.found p.children
]

-- The bytes that a field adds to the length of its group, in both functions below.
abbrev pub group_part : CbField → ℕ
group_part f =
    if f.pictype == pic_national || f.pictype == pic_national_varying
    then f.picnsize * 2
    else f.picnsize

-- From the field on, behind the length so far.
unfoldable pub get_host_group_length : FieldTree → ℕ → ℕ
get_host_group_length no_field length = length
get_host_group_length (field f children sister) length =
    get_host_group_length sister (length + group_part f)

abbrev pub next_iteration : CbField → ℤ → ℤ
next_iteration f iteration = elim f.occurs [
  | zero ↦ pos 0
  | suc n ↦ elim iteration [
    | negsuc zero ↦ pos (suc n)
    | i ↦ if ltb_ℤ (pos (suc n)) i then pos (suc n) else i
  ]
]

-- The iteration and the length, behind those so far.
unfoldable pub get_host_group_table_info : FieldTree → ℤ → ℕ → ℤ × ℕ
get_host_group_table_info no_field iteration length = (iteration, length)
get_host_group_table_info (field f children sister) iteration length =
    get_host_group_table_info sister (next_iteration f iteration) (length + group_part f)

-- What `parameter_split` makes of a field that a VARYING clause follows: the length and the text
-- become its children.
abbrev pub vp_len : CbField → CbField
vp_len vp_parent = record {
  sname = vp_parent.sname ++ codes "-LEN";
  level = vp_parent.level + 1;
  usage = Usage.binary_native;
  occurs = 0;
  pictype = pic_numeric;
  picnsize = 10;
  scale = 0;
  have_sign = true;
  sign_leading = false;
  separate = false;
}

abbrev pub vp_arr : CbField → CbField
vp_arr vp_parent = record {
  sname = vp_parent.sname ++ codes "-ARR";
  level = vp_parent.level + 1;
  usage = Usage.none_given;
  occurs = 0;
  pictype = vp_parent.pictype;
  picnsize = vp_parent.picnsize;
  scale = 0;
  have_sign = false;
  sign_leading = false;
  separate = false;
}

unfoldable pub parameter_split : CbField → CbField × FieldTree
parameter_split vp_parent = (
  record vp_parent {
    pictype =
        if vp_parent.pictype == pic_national
        then pic_national_varying
        else pic_alphanumeric_varying;
  },
  field (vp_len vp_parent) no_field (field (vp_arr vp_parent) no_field no_field),
)
