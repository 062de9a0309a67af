-- ===== src/Base/Texts.antt =====
-- Texts as lists of bytes, and `std::to_string`.
use Prim.Native.Nat.{ℕ, zero, suc, ◌+◌, ◌/◌, ◌%◌}
use Prim.Native.Char.{code}
use Prim.Native.String.{String}
use mathlib.Core.List.{List, [], ◌∷◌}
use mathlib.Core.Path.{◌≡◌, refl}

abbrev pub Text : Type 0
Text = List ℕ

-- The bytes of a literal.
abbrev pub codes : String → Text
codes String.[] = []
codes (String.◌∷◌ c s) = code c ∷ codes s

-- The digits of a number in front of a text, with fuel; the number itself is enough fuel.
unfoldable pub digits : ℕ → ℕ → Text → Text
digits zero n out = (b'0' + n % 10) ∷ out
digits (suc fuel) n out =
    let last = (b'0' + n % 10) ∷ out in
    let rest = digits fuel (n / 10) last in elim (n / 10) [ zero ↦ last | suc _ ↦ rest ]

unfoldable pub to_string : ℕ → Text
unfolding digits
to_string n = digits n n []

to_string_runs : to_string 1024 ≡ codes "1024"
unfolding to_string
to_string_runs = refl
