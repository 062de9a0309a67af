-- ===== src/Cpu/Status.antt =====
-- The status of a processor, of include/cpu/AbstractCPU.hpp and src/cpu/AbstractCPU.cpp.
use arch_xplore.Base.{ℕ, Bool, ◌&&◌, ltb, ◌==◌}

pub data CpuStatus : Type 0 where
  inactive active blocked_syscall blocked_comm blocked_mutex : CpuStatus
  blocked_barrier blocked_cond blocked_join completed num_statuses : CpuStatus

-- The value of the enumerator, by which the source compares.
unfoldable pub status_code : CpuStatus → ℕ
status_code inactive = 0
status_code active = 1
status_code blocked_syscall = 2
status_code blocked_comm = 3
status_code blocked_mutex = 4
status_code blocked_barrier = 5
status_code blocked_cond = 6
status_code blocked_join = 7
status_code completed = 8
status_code num_statuses = 9

unfoldable pub is_running : CpuStatus → Bool
unfolding status_code
is_running s =
    ltb (status_code inactive) (status_code s) && ltb (status_code s) (status_code completed)

unfoldable pub is_blocked : CpuStatus → Bool
unfolding status_code
is_blocked s =
    ltb (status_code active) (status_code s) && ltb (status_code s) (status_code completed)

unfoldable pub is_completed : CpuStatus → Bool
unfolding status_code
is_completed s = status_code s == status_code completed
