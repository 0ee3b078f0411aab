-- ===== src/Gserver/PathCheck.antt =====
-- `CheckPathValid`: util.go. The loops over indices walk the bytes that are left, with the byte
-- before them; `none` means that the function returns, `some` names the panic.
use gk.Common.{ℕ, Bool, true, false, [], ◌∷◌, Option, none, some, ◌==◌, if◌then◌else◌, not, ◌||◌}
use gk.Common.Str.{Str}

pub data PathPanic : Type 0 where
  empty_path no_leading_slash unnamed_wildcard : PathPanic
  many_wildcards no_slash_before_wildcard catch_all_inside question_mark : PathPanic

abbrev or_panic : Option PathPanic → Option PathPanic → Option PathPanic
or_panic none next = next
or_panic (some p) next = some p

-- The byte is followed by a slash, or it is the last one.
ends_segment : Str → Bool
ends_segment [] = true
ends_segment (c ∷ s) = c == b'/'

-- The inner loop after ':', up to the next slash.
one_wildcard : Str → Option PathPanic
one_wildcard [] = none
one_wildcard (c ∷ s) =
    let rest = one_wildcard s in
    if c == b'/'
    then none
    else if c == b':' || c == b'*'
    then some PathPanic.many_wildcards
    else rest

-- The inner loop after '*', to the end of the path.
no_more_slash : Str → Option PathPanic
no_more_slash [] = none
no_more_slash (c ∷ s) =
    let rest = no_more_slash s in if c == b'/' then some PathPanic.catch_all_inside else rest

abbrev not_slash : Option ℕ → Bool
not_slash none = false
not_slash (some c) = not (c == b'/')

is_nil : Str → Bool
is_nil [] = true
is_nil (c ∷ s) = false

-- The cases of the switch on one byte.
check_byte : Option ℕ → ℕ → Str → Option PathPanic
unfolding ends_segment one_wildcard no_more_slash is_nil
check_byte prev c s =
    if c == b':'
    then if ends_segment s then some PathPanic.unnamed_wildcard else one_wildcard s
    else if c == b'*'
    then if is_nil s
      then some PathPanic.unnamed_wildcard
      else if not_slash prev
      then some PathPanic.no_slash_before_wildcard
      else no_more_slash s
    else if c == b'?'
    then some PathPanic.question_mark
    else none

check_bytes : Option ℕ → Str → Option PathPanic
unfolding check_byte
check_bytes prev [] = none
check_bytes prev (c ∷ s) = let rest = check_bytes (some c) s in or_panic (check_byte prev c s) rest

unfoldable pub check_path_valid : Str → Option PathPanic
unfolding check_bytes
check_path_valid [] = some PathPanic.empty_path
check_path_valid (c ∷ s) =
    if c == b'/' then check_bytes none (c ∷ s) else some PathPanic.no_leading_slash
