-- ===== src/Iss/Service.antt =====
-- src/iss/IPCService.cpp: the daemon of the event channels. The reading of the command line, the
-- defaults of iceoryx and its RouDi are parameters: `R` is the type of the RouDi configuration.
use arch_xplore.Base.{
  ℕ, ◌*◌, List, [], ◌∷◌, ◌++◌, Bool, not, if◌then◌else◌, Option, none, some, Text,
}
use arch_xplore.Iss.Config.{max_harts, message_buffer_size}

-- `addMemPool({Chunksize(bytes), Amount of Chunks})`.
pub record MemPool : Type 0 where
  pub chunk_size : ℕ
  pub chunk_count : ℕ

-- A shared memory segment: who reads it, who writes it, and its pools.
pub record Segment : Type 0 where
  pub reader_group : Text
  pub writer_group : Text
  pub mempools : List MemPool

pub record IceoryxConfig (R : Type 0) : Type 0 where
  pub roudi_config : R
  pub shared_memory_segments : List Segment
  pub introspection_chunk_count : ℕ
  pub discovery_chunk_count : ℕ

pub record CmdLineArgs (R : Type 0) : Type 0 where
  pub run : Bool
  pub roudi_config : R

abbrev pub exit_success : ℕ
exit_success = 0

abbrev pub exit_failure : ℕ
exit_failure = 1

-- `message_chunk_size` is `sizeof(Message_t)`.
unfoldable pub mempool : ℕ → MemPool
mempool message_chunk_size = record {
  chunk_size = message_chunk_size;
  chunk_count = max_harts * message_buffer_size * 3;
}

unfoldable pub configure : {R : Type 0} → ℕ → Text → IceoryxConfig R → R → IceoryxConfig R
configure message_chunk_size group initial roudi_config = record initial {
  roudi_config = roudi_config;
  shared_memory_segments =
      initial.shared_memory_segments
      ++ record {
        reader_group = group;
        writer_group = group;
        mempools = mempool message_chunk_size ∷ [];
      }
        ∷ [];
  introspection_chunk_count = 10;
  discovery_chunk_count = 10;
}

-- The exit code of `main`; `run_roudi` is that of `IceOryxRouDiApp::run`.
unfoldable pub main :
    {R : Type 0}
    → ℕ
    → Text
    → IceoryxConfig R
    → (IceoryxConfig R → ℕ)
    → (List Text → Option (CmdLineArgs R))
    → List Text
    → ℕ
main message_chunk_size group initial run_roudi parse arguments = elim (parse arguments) [
  | none ↦ exit_failure
  | some args ↦
      if not args.run
      then exit_success
      else run_roudi (configure message_chunk_size group initial args.roudi_config)
]
