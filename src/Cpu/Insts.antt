-- ===== src/Cpu/Insts.antt =====
-- include/cpu/StaticInst.hpp: the description of an executed instruction.
use arch_xplore.Base.{ℕ, Bool, false, Addr, EventId}

pub data FunctionInfo : Type 0 where
  type_unknown type_alu type_load type_store type_branch type_jump : FunctionInfo
  type_jump_reg type_call type_return type_system type_other : FunctionInfo

pub data RegType : Type 0 where
  reg_type_none reg_type_gpr reg_type_fpr reg_type_vpr : RegType

pub record RegisterInfo : Type 0 where
  pub reg_type : RegType
  pub id : ℕ

pub record MemoryInfo : Type 0 where
  pub vaddr : Addr
  pub len : ℕ
  pub is_store : Bool

pub record BranchInfo : Type 0 where
  pub redirect : Bool
  pub target_pc : Addr

pub record StaticInst : Type 0 where
  pub uid : EventId
  pub pc : Addr
  pub opcode : ℕ
  pub len : ℕ
  pub src_reg1 : RegisterInfo
  pub src_reg2 : RegisterInfo
  pub src_reg3 : RegisterInfo
  pub dst_reg : RegisterInfo
  pub func_info : FunctionInfo
  pub br_info : BranchInfo
  pub mem_info : MemoryInfo

-- `StaticInst_t()`: value initialisation, every member zero.
abbrev pub no_register : RegisterInfo
no_register = record { reg_type = reg_type_none; id = 0 }

abbrev pub zero_inst : StaticInst
zero_inst = record {
  uid = 0;
  pc = 0;
  opcode = 0;
  len = 0;
  src_reg1 = no_register;
  src_reg2 = no_register;
  src_reg3 = no_register;
  dst_reg = no_register;
  func_info = type_unknown;
  br_info = record { redirect = false; target_pc = 0 };
  mem_info = record { vaddr = 0; len = 0; is_store = false };
}
