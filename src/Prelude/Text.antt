-- ===== src/Prelude/Text.antt =====
-- Texts as lists of code points, and the methods of Python's `str` that the program calls on them.
use Prim.Native.Nat.{ℕ}
use Prim.Native.Char.{code}
use Prim.Native.String.{String}
use mathlib.Core.Bool.{Bool, true, false}
use mathlib.Core.Option.{Option, none, some}
use mathlib.Core.List.{List, [], ◌∷◌, reverse}
use py.Prelude.Tests.{if◌then◌else◌, nat_beq}
use py.Prelude.Equality.{Bytes}

-- The code points of a literal.
abbrev pub text : String → Bytes
text String.[] = []
text (String.◌∷◌ c s) = code c ∷ text s

-- `value or None`, of a text that may be absent.
unfoldable pub given : Option Bytes → Option Bytes
given none = none
given (some []) = none
given (some (c ∷ t)) = some (c ∷ t)

unfoldable pub starts_with : Bytes → Bytes → Bool
starts_with [] t = true
starts_with (c ∷ m) [] = false
starts_with (c ∷ m) (d ∷ t) = if nat_beq c d then starts_with m t else false

unfoldable pub ends_with : Bytes → Bytes → Bool
ends_with m t = starts_with (reverse m) (reverse t)

-- What follows the first `c`, or `whole` if there is none.
unfoldable pub after_first : ℕ → Bytes → Bytes → Bytes
after_first c whole [] = whole
after_first c whole (d ∷ t) = if nat_beq d c then t else after_first c whole t

-- `t.rsplit(c, 1)[0]`
unfoldable pub before_last : ℕ → Bytes → Bytes
before_last c t = reverse (after_first c (reverse t) (reverse t))

unfoldable pub lstrip : ℕ → Bytes → Bytes
lstrip c [] = []
lstrip c (d ∷ t) = if nat_beq d c then lstrip c t else d ∷ t

-- `t.strip(c)`
unfoldable pub strip : ℕ → Bytes → Bytes
strip c t = reverse (lstrip c (reverse (lstrip c t)))

unfoldable pub add_front : ℕ → List Bytes → List Bytes
add_front d [] = (d ∷ []) ∷ []
add_front d (part ∷ parts) = (d ∷ part) ∷ parts

-- `t.split(c)`
unfoldable pub split : ℕ → Bytes → List Bytes
split c [] = [] ∷ []
split c (d ∷ t) = let rest = split c t in if nat_beq d c then [] ∷ rest else add_front d rest
