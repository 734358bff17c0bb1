-- ===== src/Precompiler/Calls/Reader.antt =====
-- How a COBOL compiler reads the lines of ocesql/ppout.c: a sequence of calls, each closed by its
-- END-CALL, with arguments exactly if it has USING.
use cobol.Prelude.{
  Bool, List, Option, [], false, if◌then◌else◌, none, not, some, true, ◌++◌, ◌>>=◌, ◌∷◌, ◌≡◌,
}
use Prim.Native.String.{String}
use cobol.Precompiler.Calls.{
  Arg, Line, call, call_using, arg, end_call, full_stop, copy_sqlca, item,
}

-- A call of the library, with its arguments in order, and whether it ends its sentence.
pub record Call : Type 0 where
  pub entry : String
  pub args : List Arg
  pub ends : Bool

-- Between the calls, or in one, behind its arguments so far.
pub data Place : Type 0 where
  between : Place
  in_call : String → Bool → List Arg → Place

-- A call is complete if it has arguments exactly if it has USING.
abbrev pub fits : Bool → List Arg → Bool
fits using [] = not using
fits using (a ∷ taken) = using

abbrev pub in_front : Call → Option (List Call) → Option (List Call)
in_front c o = o >>= λ cs. some (c ∷ cs)

unfoldable pub read_from : Place → List Line → Option (List Call)
read_from between [] = some []
read_from (in_call e using taken) [] = none
read_from between (call e ∷ ls) = read_from (in_call e false []) ls
read_from between (call_using e ∷ ls) = read_from (in_call e true []) ls
read_from between (copy_sqlca ∷ ls) = read_from between ls
read_from between (full_stop b ∷ ls) = read_from between ls
read_from between (arg a ∷ ls) = none
read_from between (end_call b ∷ ls) = none
read_from (in_call e using taken) (arg a ∷ ls) = read_from (in_call e using (taken ++ (a ∷ []))) ls
read_from (in_call e using taken) (end_call b ∷ ls) =
    if fits using taken
    then in_front (record { entry = e; args = taken; ends = b }) (read_from between ls)
    else none
read_from (in_call e using taken) (call f ∷ ls) = none
read_from (in_call e using taken) (call_using f ∷ ls) = none
read_from (in_call e using taken) (copy_sqlca ∷ ls) = none
read_from (in_call e using taken) (full_stop b ∷ ls) = none
read_from between (item s ∷ ls) = none
read_from (in_call e using taken) (item s ∷ ls) = none

unfoldable pub read_calls : List Line → Option (List Call)
unfolding read_from
read_calls = read_from between

-- Lines that are read to their end from the place on.
abbrev pub AreCalls : Place → List Line → Type 0
AreCalls p ls = (cs : List Call) × (read_from p ls ≡ some cs)
