-- ===== src/Base/Words.antt =====
-- Types.hpp, and the unsigned words of the program: values below 2 ^ w, with the wrap written out.
use Prim.Native.Nat.{ℕ, ◌+◌, ◌%◌, ◌^◌}

-- HartID_t, 16 bits.
abbrev pub HartId : Type 0
HartId = ℕ

-- ProcessID_t, 64 bits.
abbrev pub ProcessId : Type 0
ProcessId = ℕ

-- EventID_t, 64 bits.
abbrev pub EventId : Type 0
EventId = ℕ

-- Addr_t, 64 bits.
abbrev pub Addr : Type 0
Addr = ℕ

-- The conversion of a value to 16, 32 and 64 bits.
abbrev pub to_u16 : ℕ → ℕ
to_u16 n = n % 2 ^ 16

abbrev pub to_u32 : ℕ → ℕ
to_u32 n = n % 2 ^ 32

abbrev pub add64 : ℕ → ℕ → ℕ
add64 a b = (a + b) % 2 ^ 64
