-- ===== src/Cpu/Events.antt =====
-- include/cpu/PthreadAPI.hpp, SyscallAPI.hpp and ThreadEvent.hpp: the events that a guest thread
-- sends. The union of ThreadEvent_t is a data type; its tag says which member is alive.
use arch_xplore.Base.{ℕ, Bool, false, Addr, EventId, Option, none, some, ◌≡◌, arith}
use arch_xplore.Cpu.Insts.{StaticInst}

pub data PthreadType : Type 0 where
  invalid_event mutex_lock mutex_unlock thread_create thread_join barrier_wait : PthreadType
  cond_wait cond_sg cond_br spin_lock spin_unlock sem_init sem_wait sem_post : PthreadType
  sem_getv sem_dest num_types : PthreadType

-- The number that `enum class APIType_t` gives to each kind of call.
pub api_code : PthreadType → ℕ
api_code invalid_event = 0
api_code mutex_lock = 1
api_code mutex_unlock = 2
api_code thread_create = 3
api_code thread_join = 4
api_code barrier_wait = 5
api_code cond_wait = 6
api_code cond_sg = 7
api_code cond_br = 8
api_code spin_lock = 9
api_code spin_unlock = 10
api_code sem_init = 11
api_code sem_wait = 12
api_code sem_post = 13
api_code sem_getv = 14
api_code sem_dest = 15
api_code num_types = 16

pub record PthreadApi : Type 0 where
  pub pth_addr : Addr
  pub mutex_lock_addr : Addr
  pub api_type : PthreadType

pub data SyscallType : Type 0 where
  unknown_api : SyscallType

pub record SyscallApi : Type 0 where
  pub api_type : SyscallType

pub data Tag : Type 0 where
  undefined instruction thread_api syscall_api : Tag

-- The anonymous union; `empty` is a union of which no member was constructed.
pub data Payload : Type 0 where
  empty : Payload
  insn : StaticInst → Payload
  thread : PthreadApi → Payload
  sys : SyscallApi → Payload

pub record ThreadEvent : Type 0 where
  pub payload : Payload
  pub tag : Tag
  pub event_id : EventId
  pub is_last : Bool

-- The three constructors.
abbrev pub insn_event : EventId → StaticInst → ThreadEvent
insn_event id d = record { payload = insn d; tag = instruction; event_id = id; is_last = false }

abbrev pub thread_event : EventId → PthreadApi → ThreadEvent
thread_event id d = record { payload = thread d; tag = thread_api; event_id = id; is_last = false }

abbrev pub syscall_event : EventId → SyscallApi → ThreadEvent
syscall_event id d = record { payload = sys d; tag = syscall_api; event_id = id; is_last = false }

-- The copy constructor copies the member that the tag names, and no other.
copy_payload : Tag → Payload → Payload
copy_payload instruction (insn d) = insn d
copy_payload thread_api (thread d) = thread d
copy_payload syscall_api (sys d) = sys d
copy_payload _ _ = empty

unfoldable pub copy : ThreadEvent → ThreadEvent
unfolding copy_payload
copy that = record that { payload = copy_payload that.tag that.payload }

-- `operator=` destroys the target and copies the source into its place.
unfoldable pub assign : ThreadEvent → ThreadEvent → ThreadEvent
unfolding copy
assign this that = copy that

-- The tag names the member that is alive.
abbrev MatchesTag : Tag → Payload → Type 0
MatchesTag undefined empty = Unit
MatchesTag instruction (insn d) = Unit
MatchesTag thread_api (thread d) = Unit
MatchesTag syscall_api (sys d) = Unit
MatchesTag _ _ = ⊥

abbrev pub IsTagged : ThreadEvent → Type 0
IsTagged e = MatchesTag e.tag e.payload

-- Reading `instruction` of the union; `none` where another member is alive.
abbrev pub as_inst : Payload → Option StaticInst
as_inst (insn d) = some d
as_inst _ = none

-- Copying an event whose tag names the member that is alive changes nothing.
pub copy-IsTagged : (e : ThreadEvent) → IsTagged e → copy e ≡ e
unfolding copy
copy-IsTagged e t = ground arith
