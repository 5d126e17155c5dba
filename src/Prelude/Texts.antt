-- ===== src/Prelude/Texts.antt =====
-- Whole texts: equality, `===`, `includes` and `startsWith`, and the code units of a text.
use Prim.Native.Nat.{ℕ, ◌+◌, ◌-◌, ◌/◌, ◌%◌}
use Prim.Native.Char.{code}
use Prim.Native.String.{String}
use mathlib.Core.Path.{◌≡◌}
use mathlib.Core.Logic.{◌≢◌, ◌↔◌}
use mathlib.Core.Bool.{Bool, true, false}
use mathlib.Core.List.{List, [], ◌∷◌}
use native.Mathlib.Omega.{arith}
use text.Mathlib.Text.{◌==◌ as string_eq, find?}
use text.Mathlib.TextEquality.{eq_iff}
use text.Mathlib.TextPositions.{eq_refl}
use wg_portal.Prelude.Tests.{is_some, ltb, if◌then◌else◌}

-- `a === b` at two texts.
infix 50 ◌===◌
abbrev pub ◌===◌ : String → String → Bool
a === b = string_eq a b

pub ===_iff : (a b : String) → ((a === b) ≡ true) ↔ (a ≡ b)
===_iff = eq_iff

pub ===_refl : (a : String) → (a === a) ≡ true
===_refl = eq_refl

pub ===_ne : (a b : String) → a ≢ b → (a === b) ≡ false
===_ne a b h = ground (arith, eq_iff a b)

-- `!s` at a text.
abbrev pub is_empty : String → Bool
is_empty s = s === ""

-- `s.includes(sub)` at texts.
abbrev pub includes_text : String → String → Bool
includes_text s sub = is_some (find? s sub)

-- `xs.includes(s)` at a list of texts.
abbrev pub includes : List String → String → Bool
includes [] s = false
includes (x ∷ xs) s = if x === s then true else includes xs s

-- The UTF-16 code units of a text. `String` has its own `[]` and `∷`.
abbrev pub units : String → List ℕ
units String.[] = []
units (String.◌∷◌ c s) =
    if ltb (code c) 0x10000
    then code c ∷ units s
    else (0xD800 + (code c - 0x10000) / 0x400) ∷ (0xDC00 + (code c - 0x10000) % 0x400) ∷ units s
