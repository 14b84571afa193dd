-- ===== src/Lib.antt =====
-- A model of xmachine, an emulator of the PDP-11 whose devices are processes on a UNIBUS.
--
-- The program. A processor (src/cpu/cpu.c) fetches and executes instructions. All that is not one
-- of its registers it reaches through the master calls of libunibus (src/libunibus): they hand the
-- request to the thread of the data bus, which sends it to the other devices and waits for the
-- answer. The memory device (src/mem/mem.c) answers for its addresses, and loads a program at
-- its start.
--
-- The model. Base has Boolean tests, words of 8, 16 and 32 bits with their wrap-around, and lemmas
-- on masks and shifts. Outcome tells how code ends: it returns, waits for ever, follows a null
-- pointer, or leaves an array.
-- * Mem is `mem_dev` with is_local_addr, read_word, write_word, write_byte and load_aout;
--   Mem/Service is the body of the memory's loop in execute. The array is a function of the
--   index, and an index from MEMBYTES on is the outcome `out_of_bounds`.
-- * Unibus/Types has the records of a transfer (bus_state.h, data_bus.c), Unibus/Master what
--   read_data_in, write_data_out and write_data_out_b of device_bus_mgr.c do before and after they
--   wait, Unibus/DataBus the handlers of data_bus.c, and Unibus/Link a processor and a memory that
--   are joined. There every call waits before its answer comes, and every message is sent;
--   Unibus/Waiting has the device's call and the thread of the data bus in any order, the one in which
--   the answer comes first included, each message of the bus being an event, and Unibus/Send has the sockets to the neighbours and
--   send_msg, failed calls included. What a message leaves unset has an arbitrary value, `junk`.
-- * Cpu/State is `struct _cpu`, and `Bus` the interface of the master calls: the processor is
--   modelled over any bus. Cpu/Registers and Cpu/Access have the register and data accesses,
--   Cpu/Addressing the setup functions, Cpu/Flags the flag functions, Cpu/Ops the handlers of the
--   instructions, Cpu/Decode exec_instruction and Cpu/Execute the loop of execute.
-- * Cpu/Safety has the widths of the registers and `BusLaws`, what the processor relies on of a bus;
--   Machine/Laws fills these laws by Unibus and Mem, and Machine/Reach,
--   Machine/Calls and Machine/Straight are about both at once.
-- * Cpu/Laws has what the instructions compute: the branches, and the word and byte instructions on
--   registers.
-- * Disk is `disk_state` of src/disk with its registers and flags, Disk/Commands its commands and the
--   loop of its execute. The files of the system are a parameter, and a list holds the requests that
--   the device is woken for.
-- * Sockets is an interface of the socket calls, with what POSIX says of them as hypotheses. Over it, Priority has the state of a device on the
--   priority bus, its handlers and its two threads (priority_bus.c, and req_bus_master and
--   release_bus_master of device_bus_mgr.c), and Arbiter bus_arb.c.
-- * Load is aout_read of src/libload, over an interface of the host's files.
-- * Attic is an earlier emulator, in one process (attic/src), whose registers, terminal and disk are
--   reached through locations of the memory. Attic/State has memory_t and machine_state_t,
--   Attic/Memory memory.c, Attic/Effects the handlers that an access sets off, Attic/Addressing,
--   Attic/Operands, Attic/Branches, Attic/Single, Attic/Double, Attic/Control and Attic/Decode
--   handlers.c, Attic/Run tty.c and the loop of machine.c, Attic/Disk disk.c, and
--   Attic/Objects objreader.c, over an interface of the calls on a file. Attic/Registers,
--   Attic/Start, Attic/Terminal and Attic/Agreement are about them, the last about both emulators.
-- * Examples runs programs on the whole machine, and applies the theorems.
--
-- Numbers are natural numbers, and each assignment to a field of w bits cuts its value modulo
-- 2 ^ w where the value can be larger. The loop of the processor has no bound, since a program may
-- run for ever: `execute` takes fuel, gives `none` when a running processor has spent it, and
-- the statements about it are for any fuel, or for a number of rounds that they give. Of the earlier
-- emulator, `run_machine` takes fuel in the same way, and `call` takes the depth to which side effects
-- nest: at depth 0 a call does not return, and the statements are for every depth from one on. Its disk
-- is a thread: `exec_disk` runs one round for each entry of a list, which holds what the machine made
-- of the memory in between. The reader of object files takes the number of blocks that it may meet.
--
-- Not modelled: messages to the user and the dumps of the state, argument parsing, the setup and
-- removal of sockets and threads, and the reader of object files (libobj), which no other part calls.
-- A wait on a condition variable ends only by a signal, never by a spurious wake-up, and a round of the
-- priority bus's thread is one step for the device's own thread, though the code holds its locks only
-- around parts of it.
-- Unibus/Link has a processor that is the master of the bus, as connect_cpu_bus makes it, next to the
-- memory. The terminal's code in src/tty is commented out. Of attic: stepping and dump_state, the mutex
-- and the mixing of a disk's round with a machine's cycle, the terminal's mode, and the assembler.
pub mod Base
pub mod Outcome
pub mod Mem
pub mod Unibus
pub mod Cpu
pub mod Machine
pub mod Disk
pub mod Sockets
pub mod Priority
pub mod Arbiter
pub mod Load
pub mod Examples
pub mod Attic
