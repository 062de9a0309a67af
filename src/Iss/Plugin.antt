-- ===== src/Iss/Plugin.antt =====
-- include/iss/qemu/instrumentation/InstrumentPlugin.hpp: the plugin in the guest's emulator, which
-- turns what the guest executes into events. The four maps m_inst_counters, m_event_counters,
-- m_last_insts and m_event_publishers have the keys 0, 1, … below m_max_harts from
-- `startPublishService` on; they are one list here, of a record for each virtual processor.
pub mod Publishing
pub mod Tracing
pub mod Redirects
pub mod Install
pub mod Threads
use arch_xplore.Base.{
  ℕ, suc, ◌+◌, ◌%◌, ◌^◌, List, [], ◌∷◌, Bool, true, false, ◌||◌, not, Text, Option, none, some,
  Addr, HartId, ProcessId, EventId, get_elem?, set, replicate, ltb, ◌==◌, add64, to_u16,
  if◌then◌else◌, Outcome, done, throws, assertion, thrown, out_of_range, undefined_behaviour, check,
  or_throw, ◌>>=◌, ◌>>◌,
}
use arch_xplore.Cpu.Insts.{StaticInst, BranchInfo, zero_inst}
use arch_xplore.Cpu.Events.{ThreadEvent, insn_event, syscall_event, unknown_api}
use arch_xplore.Iss.Cache.{
  InstCacheEntry, InstCache, zero_entry, lookup, insert, find_or_insert, TbInsn, read_opcode,
  translate_insn, translate_insns,
}
use arch_xplore.Iss.Ports.{PublisherPort}
use arch_xplore.Iss.Publisher.{EventPublisher, construct, publish, destroy}

pub record Vcpu (P : Type 0) : Type 0 where
  pub inst_counter : EventId
  pub event_counter : EventId
  pub last_inst : StaticInst
  pub publisher : Option (EventPublisher P)

pub record InstrumentPlugin (P : Type 0) : Type 0 where
  pub app_name : Text
  pub runtime : Text
  pub pid : ProcessId
  pub boot_hart : HartId
  pub max_harts : HartId
  pub vcpus : List (Vcpu P)
  pub inst_cache : InstCache

-- The last instruction, once the one behind it is known.
unfoldable pub link : StaticInst → InstCacheEntry → StaticInst
link last inst = record last {
  br_info = record {
    redirect = if not (last.pc == add64 inst.pc inst.len) then true else last.br_info.redirect;
    target_pc = inst.pc;
  };
}

-- The new last instruction; what the callback does not set is left as it was.
unfoldable pub next_inst : StaticInst → EventId → InstCacheEntry → StaticInst
next_inst cur uid inst = record cur {
  uid = uid;
  pc = inst.pc;
  opcode = inst.opcode;
  len = inst.len;
}

module _ {P : Type 0} where
  unfoldable pub start_publish_service : InstrumentPlugin P → InstrumentPlugin P
  start_publish_service p = record p {
    vcpus =
        replicate p.max_harts
          (record { inst_counter = 0; event_counter = 0; last_inst = zero_inst; publisher = none });
  }

  unfoldable pub calculate_hart_id : InstrumentPlugin P → ℕ → HartId
  calculate_hart_id p vcpu_index = to_u16 (vcpu_index + p.boot_hart)

  abbrev pub at : InstrumentPlugin P → ℕ → Outcome (Vcpu P)
  at p vcpu_index = or_throw (get_elem? p.vcpus vcpu_index) out_of_range

  abbrev pub set_vcpu : InstrumentPlugin P → ℕ → Vcpu P → InstrumentPlugin P
  set_vcpu p vcpu_index v = record p { vcpus = set p.vcpus vcpu_index v }

  unfoldable pub translate_basic_block :
      List TbInsn → InstrumentPlugin P → Outcome (InstrumentPlugin P)
  translate_basic_block tb p = do
    cache ← translate_insns tb p.inst_cache
    done (record p { inst_cache = cache })

  unfoldable pub memory_access :
      ℕ → Addr → ℕ → Bool → InstrumentPlugin P → Outcome (InstrumentPlugin P)
  memory_access vcpu_index vaddr size_shift is_store p = do
    v ← at p vcpu_index
    done (
        set_vcpu p vcpu_index (record v {
          last_inst = record v.last_inst {
            mem_info = record { vaddr = vaddr; len = size_shift % 2 ^ 8; is_store = is_store };
          };
        }))

-- `open_port` is the constructor of the port, which is not part of this repository.
module _ {P : Type 0} (api : PublisherPort P) (open_port : Text → HartId → P) where
  unfoldable pub thread_initialize : ℕ → InstrumentPlugin P → Outcome (InstrumentPlugin P)
  thread_initialize vcpu_index p = do
    check (ltb vcpu_index p.max_harts) assertion
    let hart_id = calculate_hart_id p vcpu_index
    v ← at p vcpu_index
    elim v.publisher [
      | none ↦ do
        q ← construct api p.app_name hart_id (open_port p.app_name hart_id)
        done (set_vcpu p vcpu_index (record v { publisher = some q }))
      | some q ↦ done p
    ]

module _ {P : Type 0} (api : PublisherPort P) where
  -- `m_event_publishers.at(i)->publish(…, m_event_counters.at(i)++, …)`.
  unfoldable pub publish_event : Bool → ThreadEvent → Vcpu P → Outcome (Vcpu P)
  publish_event force e v = do
    q ← or_throw v.publisher undefined_behaviour
    q' ← publish api force e q
    done (record v { event_counter = add64 v.event_counter 1; publisher = some q' })

  unfoldable pub thread_exit : ℕ → InstrumentPlugin P → Outcome (InstrumentPlugin P)
  thread_exit vcpu_index p = do
    v ← at p vcpu_index
    let last_event = record (insn_event v.event_counter v.last_inst) { is_last = true }
    v' ← publish_event true last_event v
    done (set_vcpu p vcpu_index v')

  -- Every publisher is released, and its destructor waits until its subscribers have left, for as many
  -- polls as are given; then the process exits with the code `signum`.
  unfoldable pub release_publishers : ℕ → List (Vcpu P) → Outcome (List (Vcpu P))
  release_publishers polls [] = done []
  release_publishers polls (v ∷ vs) = elim v.publisher [
    | some q ↦ do
      q' ← destroy api polls q
      vs' ← release_publishers polls vs
      done (record v { publisher = none } ∷ vs')
    | none ↦ do vs' ← release_publishers polls vs; done (v ∷ vs')
  ]

  unfoldable pub user_exit_callback : ℕ → ℕ → InstrumentPlugin P → Outcome (ℕ × InstrumentPlugin P)
  user_exit_callback polls signum p = do
    vs ← release_publishers polls p.vcpus
    done (signum, record p { vcpus = vs })

  unfoldable pub qemu_at_exit : ℕ → InstrumentPlugin P → Outcome (ℕ × InstrumentPlugin P)
  qemu_at_exit polls p = user_exit_callback polls 0 p

  unfoldable pub syscall : ℕ → InstrumentPlugin P → Outcome (InstrumentPlugin P)
  syscall vcpu_index p =
      if ltb 1 p.max_harts
      then (do
        v ← at p vcpu_index
        v' ←
            publish_event true (syscall_event v.event_counter (record { api_type = unknown_api })) v
        done (set_vcpu p vcpu_index v'))
      else done p

  -- `syscallReturn` does nothing; the two numbers of 64 bits are their bits.
  abbrev pub syscall_return : ℕ → ℕ → ℕ → InstrumentPlugin P → InstrumentPlugin P
  syscall_return vcpu_index num ret p = p

  -- `executeInstruction` on the virtual processor itself.
  unfoldable pub execute_entry : InstCacheEntry → Vcpu P → Outcome (Vcpu P)
  execute_entry inst v =
      let fresh = λ (w : Vcpu P). record w {
        inst_counter = add64 w.inst_counter 1;
        last_inst = next_inst w.last_inst w.inst_counter inst;
      } in
      if not (v.inst_counter == 0)
      then (do
        let last_inst = link v.last_inst inst
        v' ←
            publish_event false (insn_event v.event_counter last_inst)
              (record v { last_inst = last_inst })
        done (fresh v'))
      else done (fresh v)

  unfoldable pub execute_instruction : ℕ → Addr → InstrumentPlugin P → Outcome (InstrumentPlugin P)
  execute_instruction vcpu_index key p = do
    let (inst, cache) = find_or_insert key p.inst_cache
    v ← at p vcpu_index
    v' ← execute_entry inst v
    done (set_vcpu (record p { inst_cache = cache }) vcpu_index v')
