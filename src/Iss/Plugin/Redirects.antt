-- ===== src/Iss/Plugin/Redirects.antt =====
-- Where the simulated processor goes on behind a traced instruction, and where the guest went.
use arch_xplore.Base.{◌+◌, ◌<◌, ◌^◌, true, false, add64, ◌≡◌, ◌≢◌, ◌⊎◌, arith}
use arch_xplore.Cpu.Insts.{StaticInst}
use arch_xplore.Hart.Tick.{next_pc_of}
use arch_xplore.Iss.Cache.{InstCacheEntry}
use arch_xplore.Iss.Plugin.{link}

-- The processor follows the guest from an instruction to the next if a redirect was recorded before,
-- or if the instruction does not stand right behind the next one.
pub next_pc_of-link :
    (last : StaticInst) (x : InstCacheEntry)
    → (last.br_info.redirect ≡ true) ⊎ (last.pc ≢ add64 x.pc x.len)
    → next_pc_of (link last x) ≡ x.pc
unfolding next_pc_of link
next_pc_of-link last x h = ground arith

-- Straight-line code is recorded as a redirect: if the next instruction stands right behind the
-- last one, and the two together are not of length zero, the event says that the guest branched.
pub link_straight :
    (last : StaticInst) (x : InstCacheEntry)
    → last.pc + last.len + x.len < 2 ^ 64
    → 0 < last.len + x.len
    → x.pc ≡ last.pc + last.len
    → (link last x).br_info.redirect ≡ true
unfolding link
link_straight last x room pos straight = ground arith

-- A jump back by exactly the length of its target is not: the processor falls through to the
-- instruction behind the jump, and not to where the guest went.
pub link_jump_back :
    (last : StaticInst) (x : InstCacheEntry)
    → last.br_info.redirect ≡ false
    → last.pc + last.len < 2 ^ 64
    → 0 < last.len + x.len
    → last.pc ≡ x.pc + x.len
    → (next_pc_of (link last x) ≡ last.pc + last.len) × (next_pc_of (link last x) ≢ x.pc)
unfolding next_pc_of link
link_jump_back last x no_redirect room pos back = (ground arith, λ e. ground arith)
