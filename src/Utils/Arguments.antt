-- ===== src/Utils/Arguments.antt =====
-- The command line of src/common/src/utils.rs: Args::default and Args::process_arg.
use lightflus.Base.{
  true, false, none, some, List, [], ◌∷◌, ◌++◌, ◌≡◌, refl, Str, is_empty, same_refl, nat_ord,
  list_ord, Bool-cases, inl, inr,
}
use lightflus.Base.HashMap
use lightflus.Base.HashMap.{HashMap}
use lightflus.Utils.{Arg, starts_with_dash, process_arg, process_args, parse_args, arg, no_arg}

-- Once a flag was read, the next one panics, whatever stands between them.
second_flag :
    (between rest : List Str) (flag : Str) (current : Arg) (args : HashMap Str Arg)
    → is_empty current.key ≡ false
    → starts_with_dash flag ≡ true
    → process_args (between ++ flag ∷ rest) current args ≡ none
unfolding process_args process_arg
second_flag [] rest flag current args key dash = rw (dash, key) refl
second_flag (a ∷ more) rest flag current args key dash = elim (Bool-cases (starts_with_dash a)) [
  | inl e ↦ rw (e, key) refl
  | inr e ↦ rw e (second_flag more rest flag (record current { value = a }) _ key dash)
]

flag_read :
    (before : List Str) (key : Str) (rest : List Str) (current : Arg) (args : HashMap Str Arg)
    → (k : (current' : Arg) (args' : HashMap Str Arg)
        → is_empty current'.key ≡ false
        → process_args rest current' args' ≡ none)
    → is_empty key ≡ false
    → process_args (before ++ (45 ∷ key) ∷ rest) current args ≡ none
unfolding process_args process_arg
flag_read [] key rest current args k h = elim (Bool-cases (is_empty current.key)) [
  | inl e ↦ rw e (k _ args h)
  | inr e ↦ rw e refl
]
flag_read (a ∷ more) key rest current args k h = elim (Bool-cases (starts_with_dash a)) [
  | inl dash ↦ elim (Bool-cases (is_empty current.key)) [
    | inl e ↦ rw (dash, e) (flag_read more key rest _ args k h)
    | inr e ↦ rw (dash, e) refl
  ]
  | inr dash ↦ rw dash (flag_read more key rest _ _ k h)
]

-- A command line with two flags panics, unless the first is a dash alone: the key of the first is
-- never cleared, even where the flag has its value.
pub parse_args-two_flags :
    (before : List Str) (key : Str) (between : List Str) (flag : Str) (rest : List Str)
    → is_empty key ≡ false
    → starts_with_dash flag ≡ true
    → parse_args (before ++ (45 ∷ key) ∷ (between ++ flag ∷ rest)) ≡ none
unfolding parse_args
parse_args-two_flags before key between flag rest h dash =
    flag_read before key (between ++ flag ∷ rest) no_arg []
      (λ current args e. second_flag between rest flag current args e dash) h

-- The value of the one flag of a command line is found under the flag's name.
pub arg-parse_args :
    (program key value : Str)
    → starts_with_dash program ≡ false
    → starts_with_dash value ≡ false
    → (args : HashMap Str Arg) × (parse_args (program ∷ (45 ∷ key) ∷ value ∷ []) ≡ some args)
      × (arg key args ≡ some (record { key = key; value = value }))
unfolding parse_args process_args process_arg arg HashMap.insert
arg-parse_args program key value p v =
    let first : HashMap Str Arg = ([], record { key = []; value = program }) ∷ [] in
    (
      HashMap.insert key (record { key = key; value = value }) first,
      rw (p, v) refl,
      rw (HashMap.get-insert key key (record { key = key; value = value }) first, same_refl key)
          refl,
    )
