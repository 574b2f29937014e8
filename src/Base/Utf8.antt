-- ===== src/Base/Utf8.antt =====
-- String::from_utf8: std accepts the byte sequences of the Unicode standard's table of well-formed
-- UTF-8.
use Prim.Native.Nat.{ℕ, zero, suc}
use mathlib.Core.Bool.{Bool, true, false, ◌&&◌, ◌||◌}
use mathlib.Core.Option.{Option, none, some}
use mathlib.Core.List.{List, [], ◌∷◌}
use lightflus.Base.Logic.{leb, ltb, if◌then◌else◌, ◌==◌}

abbrev within : ℕ → ℕ → ℕ → Bool
within lo hi b = leb lo b && leb b hi

-- The bytes that may follow the first byte of a character: how many, and the range of the second.
-- `none` where no character begins with the byte.
abbrev lead : ℕ → Option (ℕ × ℕ × ℕ)
lead b =
    if ltb b 0x80
    then some (0, 0, 0)
    else if within 0xc2 0xdf b
    then some (1, 0x80, 0xbf)
    else if b == 0xe0
    then some (2, 0xa0, 0xbf)
    else if within 0xe1 0xec b || within 0xee 0xef b
    then some (2, 0x80, 0xbf)
    else if b == 0xed
    then some (2, 0x80, 0x9f)
    else if b == 0xf0
    then some (3, 0x90, 0xbf)
    else if within 0xf1 0xf3 b
    then some (3, 0x80, 0xbf)
    else if b == 0xf4
    then some (3, 0x80, 0x8f)
    else none

-- What is expected next: `wait` bytes of the present character, the next one in a range.
unfoldable pub well_formed : ℕ → ℕ → ℕ → List ℕ → Bool
well_formed zero lo hi [] = true
well_formed zero lo hi (b ∷ bs) = elim (lead b) [
  | none ↦ false
  | some (n, l, h) ↦ well_formed n l h bs
]
well_formed (suc wait) lo hi [] = false
well_formed (suc wait) lo hi (b ∷ bs) = within lo hi b && well_formed wait 0x80 0xbf bs

unfoldable pub is_utf8 : List ℕ → Bool
unfolding well_formed
is_utf8 = well_formed 0 0 0

-- String::from_utf8
unfoldable pub from_utf8 : List ℕ → Option (List ℕ)
from_utf8 bs = if is_utf8 bs then some bs else none
