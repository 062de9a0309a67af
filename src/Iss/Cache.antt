-- ===== src/Iss/Cache.antt =====
-- include/iss/qemu/instrumentation/InstrumentPlugin.hpp: the cache of the instructions that have been
-- translated, which all virtual processors share.
use arch_xplore.Base.{
  ℕ, ◌%◌, ◌^◌, List, [], ◌∷◌, Option, none, some, Addr, ◌==◌, if◌then◌else◌, Outcome, done, throws,
  thrown, ◌>>=◌,
}

pub record InstCacheEntry : Type 0 where
  pub pc : Addr
  pub opcode : ℕ
  pub len : ℕ

abbrev pub InstCache : Type 0
InstCache = List (Addr × InstCacheEntry)

-- `m_inst_cache[key]`: a key that is missing gets an entry of zeros.
abbrev pub zero_entry : InstCacheEntry
zero_entry = record { pc = 0; opcode = 0; len = 0 }

unfoldable pub lookup : Addr → InstCache → Option InstCacheEntry
lookup key [] = none
lookup key ((k, e) ∷ cache) = if k == key then some e else lookup key cache

unfoldable pub insert : Addr → InstCacheEntry → InstCache → InstCache
insert key e [] = (key, e) ∷ []
insert key e ((k, f) ∷ cache) = if k == key then (key, e) ∷ cache else (k, f) ∷ insert key e cache

unfoldable pub find_or_insert : Addr → InstCache → InstCacheEntry × InstCache
find_or_insert key cache = elim (lookup key cache) [
  | some e ↦ (e, cache)
  | none ↦ (zero_entry, insert key zero_entry cache)
]

-- An instruction of a translated block, as the emulator describes it; `word` is what stands at its
-- address, read in the order of the host.
pub record TbInsn : Type 0 where
  pub vaddr : Addr
  pub size : ℕ
  pub word : ℕ

-- The opcode by the length of the instruction, which is converted to 8 bits.
unfoldable pub read_opcode : ℕ → ℕ → Outcome ℕ
read_opcode len word =
    if len == 1
    then done (word % 2 ^ 8)
    else if len == 2
    then done (word % 2 ^ 16)
    else if len == 4
    then done (word % 2 ^ 32)
    else throws thrown

unfoldable pub translate_insn : TbInsn → InstCache → Outcome InstCache
translate_insn insn cache = do
  let len = insn.size % 2 ^ 8
  opcode ← read_opcode len insn.word
  done (insert insn.vaddr (record { pc = insn.vaddr; opcode = opcode; len = len }) cache)

-- The loop over the instructions of a block. The callbacks that it registers are the calls of
-- `execute_instruction` and `memory_access` that follow.
unfoldable pub translate_insns : List TbInsn → InstCache → Outcome InstCache
translate_insns [] cache = done cache
translate_insns (i ∷ is) cache = do cache' ← translate_insn i cache; translate_insns is cache'
