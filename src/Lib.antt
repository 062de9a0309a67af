-- ===== src/Lib.antt =====
-- ArchXplore: a simulator of RISC-V harts whose instructions come from a QEMU user-mode guest.
--
-- The program has two sides. In the guest's emulator a plugin (include/iss/qemu/instrumentation)
-- turns what each virtual processor executes into thread events and publishes them, a message at a
-- time, on the event channel of the hart (include/iss/EventPublisher.hpp). In the simulator each
-- hart reads its channel (include/iss/EventSubscriber.hpp) through its instruction set simulator
-- (src/iss/qemu/QemuISS.cpp), which hands groups of instructions to the processor
-- (src/cpu/simple/SimpleCPU.cpp) and puts it to sleep and wakes it up. The system
-- (include/system/qemu/QemuSystem.hpp, src/system/AbstractSystem.cpp) registers processors and
-- processes, starts an emulator for each process and gives the harts their processes.
--
-- Files, and the code they model:
-- Base: Boolean tests, lists and texts over the native numbers, and Outcome, the result of code that
-- can throw or wait for ever; Maps is std::map as a sorted list. Words of 16 and 64 bits are numbers
-- with the wrap-around written out.
-- Utils: ThreadPool (include/utils/ThreadPool.hpp), as a relation of the steps of all its threads, with
-- the sleep of its workers and the notifications. Invariant, Joining and Progress are about its runs.
-- Clock: the inheritance of clock domains (include/ClockedObject.hpp, src/ClockedObject.cpp).
-- Cpu: Insts, Events (include/cpu/StaticInst.hpp, PthreadAPI.hpp, SyscallAPI.hpp, ThreadEvent.hpp),
-- Status and Core (include/cpu/AbstractCPU.hpp, src/cpu/AbstractCPU.cpp: the status and the events).
-- Iss: Config (include/iss/IPCConfig.hpp), Publisher, Subscriber, and Plugin (InstrumentPlugin.hpp),
-- each with what is proved of it below it. Ports states what the code relies on of iceoryx, Batches
-- the framing of the messages, and Queue the interface that the simulator reads its events through;
-- the subscriber is an instance. Channel has both ends of a channel as two processes whose steps come
-- in any order, tryTake and the events that it drops among them, and Service the daemon (src/iss/IPCService.cpp). Cache is the plugin's cache of translated instructions.
-- Plugin/Install reads the plugin's arguments (src/iss/qemu/InstrumentPlugin.cpp), and below it
-- RoundTrip relates them to what the system writes. Plugin/Threads is about a whole thread of the
-- guest, and Plugin/Threads/Links about what the processor reads of it. Examples holds list ports
-- for the tests.
-- Hart: State, Fetch (src/iss/qemu/QemuISS.cpp) and Tick (src/cpu/simple/SimpleCPU.cpp and the
-- handlers of src/cpu/AbstractCPU.cpp). Spec says what a fetch is to deliver as a function of the
-- events alone, Takes the same as a relation; Rounds, Loops, FetchLaws and Runs relate the loop to
-- it; TickLaws, Scheduling and Waking are about the handlers. Links, Effects and Advance are about
-- threads whose instructions lead from one to the next, Running and Completion about a hart that
-- runs such a thread to its end, Reach about every order of its events, Worker about a hart that
-- is not the boot hart, between its threads, Shared about all harts of a process in any order of
-- their events, Leftover about what stays in the buffer behind a
-- thread, and Guest joins all of it to the plugin: the way of an instruction from the guest
-- to the processor. There the scheduler of sparta is the order of steps of Running.fire: it calls
-- the handler of the tick if that is scheduled, else that of the monitor if that is.
-- Sys: Processes (include/system/Process.hpp), Boot (registration, booting and cleaning up), with
-- BootLaws, BootErrors and CleanUp; Paths (executablePath); Register (build and registerISS, with
-- setISS and the initialisation of a QemuISS), and below it Channels, which joins it to the plugin;
-- Domains (registerClockDomain), Clocks (buildRank, buildClockDomains) and Run (finalize, run and
-- the bound-weave event), all of src/system/AbstractSystem.cpp, over interfaces of the clocks and
-- schedulers of sparta. Configure is the configuring of a whole tree of clocked objects, which joins
-- Clock to Domains and Clocks, and the constructor of the system.
-- Program: the main function and the embedded module of the interpreter
-- (src/python/ArchXplorePy.cpp, src/python/EmbeddedModule.cpp, include/python/EmbeddedModule.hpp);
-- the evaluation of a script is a parameter.
-- Names are those of the source in snake case: generateFetchRequest is generate_fetch_request. Tests
-- stand in the modules named Tests and in Hart/RunTests.
--
-- Loops. The loops that poll iceoryx run on fuel: the ports bound how often a poll can fail in vain,
-- and one more round than that is given, so that running out of fuel (blocked) is waiting for ever.
-- The loop of generateFetchRequest takes an event in every round but its last, and gets one more
-- than there are events to read. The waits for a subscription and for the last subscriber to leave
-- have the number of their polls as an argument. A hart is run for finitely many events, whose
-- number is what is left of its thread and of the delays of its channel. The tasks of a phase end in an
-- order that is an argument of the bound-weave event. The loop of newQemuProcess
-- has a counter of 16 bits and gets 2 ^ 16 rounds and one more, behind which it would be where it
-- began.
--
-- Not modelled: getElapsedTime, a conversion of a time of sparta; iceoryx, sparta, QEMU and the
-- subprocess library (ports, events, popen and kill are parameters; popen can throw), the loggers, the declarations of
-- classes for the interpreter, and locks: a callback of the plugin is one step.
pub mod Base
pub mod Utils
pub mod Clock
pub mod Cpu
pub mod Iss
pub mod Hart
pub mod Sys
pub mod Program
