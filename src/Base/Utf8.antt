-- ===== src/Base/Utf8.antt =====
-- Which byte sequences `String::from_utf8` takes.
use mathlib.Core.Bool.{Bool, true, false, ◌&&◌}
use mathlib.Core.List.{List, [], ◌∷◌}
use mathlib.Core.Option.{Option, none, some}
use Prim.Native.Nat.{ℕ, zero, suc}
use pueue.Base.Tests.{leb, if◌then◌else◌}

-- How many bytes continue a first byte, and the bounds of the next of them.
abbrev lead : ℕ → Option (ℕ × ℕ × ℕ)
lead byte =
    if leb byte 127
    then some (0, 128, 191)
    else if leb byte 193
    then none
    else if leb byte 223
    then some (1, 128, 191)
    else if leb byte 224
    then some (2, 160, 191)
    else if leb byte 236
    then some (2, 128, 191)
    else if leb byte 237
    then some (2, 128, 159)
    else if leb byte 239
    then some (2, 128, 191)
    else if leb byte 240
    then some (3, 144, 191)
    else if leb byte 243
    then some (3, 128, 191)
    else if leb byte 244
    then some (3, 128, 143)
    else none

unfoldable continues : (left low high : ℕ) → List ℕ → Bool
continues zero low high [] = true
continues (suc left) low high [] = false
continues zero low high (byte ∷ bytes) = elim (lead byte) [
  | none ↦ false
  | some (left, low', high') ↦ continues left low' high' bytes
]
continues (suc left) low high (byte ∷ bytes) =
    (leb low byte && leb byte high) && continues left 128 191 bytes

unfoldable pub is_utf8 : List ℕ → Bool
unfolding continues
is_utf8 bytes = continues 0 128 191 bytes
