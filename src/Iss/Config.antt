-- ===== src/Iss/Config.antt =====
-- include/iss/IPCConfig.hpp: the sizes of the event channel.
use arch_xplore.Base.{ℕ, List}
use arch_xplore.Cpu.Events.{ThreadEvent}

abbrev pub max_harts : ℕ
max_harts = 128

abbrev pub message_vector_size : ℕ
message_vector_size = 16384

abbrev pub message_buffer_size : ℕ
message_buffer_size = 4

-- `iox::cxx::vector<ThreadEvent_t, MESSAGE_VECTOR_SIZE>`.
abbrev pub Message : Type 0
Message = List ThreadEvent
