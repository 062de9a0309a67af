-- ===== src/Iss/Plugin/Install/Numbers.antt =====
-- What std::to_string prints std::stoi reads back.
use arch_xplore.Base.{
  ℕ, zero, suc, ◌+◌, ◌-◌, ◌*◌, ◌/◌, ◌%◌, ◌^◌, ◌≤◌, ◌<◌, [], ◌∷◌, Text, digits, to_string, done, ◌≡◌,
  ◌≢◌, All, refl, ap, ◌∙◌, arith, ◌⊎◌, inl, inr,
}
use arch_xplore.Iss.Plugin.Install.{skip_space, read_digits, read_unsigned, read_signed, stoi}

-- A text whose first byte is a digit.
abbrev pub StartsWithDigit : Text → Type 0
StartsWithDigit [] = ⊥
StartsWithDigit (c ∷ cs) = (b'0' ≤ c) × (c ≤ b'9')

zero_or_suc : (n : ℕ) → (n ≡ 0) ⊎ ((m : ℕ) × (n ≡ suc m))
zero_or_suc zero = inl refl
zero_or_suc (suc m) = inr (m, refl)

digits-StartsWithDigit : (fuel n : ℕ) (out : Text) → StartsWithDigit (digits fuel n out)
unfolding digits
digits-StartsWithDigit zero n out = omega arith
digits-StartsWithDigit (suc fuel) n out = elim (zero_or_suc (n / 10)) [
  | inl z ↦ rw (z, digits) (omega arith)
  | inr (m, s) ↦ rw (s, digits) (digits-StartsWithDigit fuel (n / 10) _)
]

read_digit :
    (c : ℕ) (cs : Text) (n : ℕ)
    → b'0' ≤ c
    → c ≤ b'9'
    → read_digits (c ∷ cs) n ≡ read_digits cs (10 * n + (c - b'0'))
unfolding read_digits
read_digit c cs n lo hi = ground arith

read_digits-digits :
    (fuel n : ℕ) (out : Text) → n ≤ fuel → read_digits (digits fuel n out) 0 ≡ read_digits out n
unfolding digits
read_digits-digits zero n out h =
    read_digit (b'0' + n % 10) out 0 (omega arith) (omega arith)
    ∙ ap (read_digits out) (omega arith)
read_digits-digits (suc fuel) n out h = elim (zero_or_suc (n / 10)) [
  | inl z ↦
      rw (z, digits)
        (read_digit (b'0' + n % 10) out 0 (omega arith) (omega arith)
          ∙ ap (read_digits out) (omega arith))
  | inr (m, s) ↦
      rw (s, digits)
        (read_digits-digits fuel (n / 10) _ (omega arith)
          ∙ read_digit (b'0' + n % 10) out (n / 10) (omega arith) (omega arith)
          ∙ ap (read_digits out) (omega arith))
]

stoi-digit :
    (cs : Text) (n : ℕ) → StartsWithDigit cs → read_digits cs 0 ≡ n → n < 2 ^ 31 → stoi cs ≡ done n
unfolding stoi skip_space read_signed read_unsigned
stoi-digit [] n d h lt = absurd d
stoi-digit (c ∷ cs) n d h lt = ground arith

-- Every number that an int holds is read back from its decimal print.
pub stoi-to_string : (n : ℕ) → n < 2 ^ 31 → stoi (to_string n) ≡ done n
unfolding to_string read_digits
stoi-to_string n lt =
    stoi-digit (digits n n []) n (digits-StartsWithDigit n n [])
      (read_digits-digits n n [] (omega arith)) lt

-- A decimal print holds none of the bytes that are not digits.
pub to_string-without : (b n : ℕ) → b < b'0' → All (λ c. c ≢ b) (to_string n)
unfolding to_string digits
to_string-without b n lt = digits-without n n [] tt
  where
    digits-without :
        (fuel m : ℕ) (out : Text) → All (λ c. c ≢ b) out → All (λ c. c ≢ b) (digits fuel m out)
    digits-without zero m out h = (omega arith, h)
    digits-without (suc fuel) m out h = elim (zero_or_suc (m / 10)) [
      | inl z ↦ rw (z, digits) (omega arith, h)
      | inr (k, s) ↦ rw (s, digits) (digits-without fuel (m / 10) _ (omega arith, h))
    ]
