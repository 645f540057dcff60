-- ===== src/Lib.antt =====
-- A small RISC-V kernel and two of its user programs: pipes, descriptor tables, the process table,
-- the scheduler, the filesystem, the loader of programs, the system calls, the serial line, `wc` and
-- the shell `sh`.
--
-- The parts and how they interact
--   A process owns a table of sixteen descriptors. A descriptor is the console, a file, or one end of
--   a pipe. All pipes live in one global table, which counts the descriptors of each end of each
--   pipe: copying a descriptor table (at a spawn), `dup2` and `close` change these counts, and the
--   last reference to an end closes it. A process that cannot read or write registers itself with the
--   pipe, and the next transfer or the closing of the other end wakes it. The process table holds
--   the processes, and knows which one is current. The scheduler goes round those that can run; a
--   context switch saves the user memory and two control registers of one process and restores those
--   of the next. File descriptors name paths of the filesystem, which stands on a block device. A
--   system call takes the mutex of the process table, reads or writes through a descriptor of the
--   caller, and returns a number to the program. The programs see only these calls: `wc` reads a
--   descriptor in pieces and counts, `sh` edits a line, parses it into a pipeline, and runs that with
--   its own standard descriptors redirected for a while.
--
-- Files and code
--   Base         lists, optional slots, results and Boolean tests that the parts share.
--   Fd.Error     `FdError` of src/fd.rs.
--   Fd.Pipe      `Pipe` of src/fd.rs: `new`, `available`, `space_available`, `read`, `write`, the
--                waiting lists. A loop of the code is a function on the count of bytes that are left.
--                Ring and Loops are its lemmas, Channel is what a pipe promises, Refine and Stream
--                relate the two.
--   Fd.PipeTable `PipeTable` of src/fd.rs: `create_pipe`, `incref`, `read`, `write`, and
--                `close_pipe_end`; `mark_reader` and `mark_writer` have names that end in `_waiting`
--                in the code. Each takes the table that the code locks, and returns it with the
--                processes to be woken. Slots, Refs, Transfer and Wake are about its invariant, its
--                counts and the waiting processes.
--   Fd.Table     `FdTable` and the descriptors of src/fd.rs: `alloc`, `get`, `close`, `dup2`,
--                `clone`, `close_all`. Count, Balance and Copy relate the descriptors to the counts.
--   Machine      the memory, the user window and the registers that a switch moves.
--   Proc         `Process` and `ProcessTable` of src/proc.rs; Proc.Context holds what saves and restores
--                a process. Lookup, Inv and Wait are the lemmas.
--   Sched        `Scheduler` of src/scheduler.rs: `schedule`, `yield_cpu`, `block_current`,
--                `unblock`, `maybe_switch`. Choose, Turns and Fair are about the choice and the
--                turns, Switch, Runner and Context about the states and what a switch saves.
--   Fd.Io        reading and writing of src/fd.rs: `FileDescriptor`, `FileFd`, `UartFd`, `PipeFd`, with
--                the devices below them. File is about files.
--   Fs           `FsError`, the on-disk records and the trait `BlockDevice` of src/fs.rs. The device is
--                a parameter; IsDevice is what it promises. Fs.Format is the format
--                (`write_entry`, `deserialize_entry`, the superblock), Fs.Disk the allocator, the
--                data and mounting, Fs.Path the walk along a path and the way back, Fs.Ops the
--                operations of `TinyFs` and `with_fs`. Roundtrip, Blocks, Mount, Data, Find,
--                Written and Root are their theorems. A string is its bytes; names are tested for
--                UTF-8 as the standard library does.
--   Elf          `ElfFile::parse` of src/elf.rs. A slice out of bounds is a panic, which is `none`.
--   Loader       `load` and `load_into_user_window` of src/process.rs; Stack is `build_user_stack`, with
--                Strings, Push, Words and Argv on what stands there.
--   Shell        `normalize_path` of src/main.rs. Walk is what following a path means.
--   Syscall      `sys_exit` of src/syscall.rs, with the mutex that it holds. Errno is `SysError` with the
--                functions from errors to numbers, Io the calls on descriptors (`sys_read`,
--                `sys_write`, `sys_close`, `sys_dup2`, `sys_pipe`), Spawn `sys_spawn`, Dispatch the other
--                calls, `dispatch` and `handle_ecall`. Io.Wake, Io.Blocking, Io.Pipes, Io.Files
--                and Spawn.Window are about what these calls do.
--   Uart         the queue of src/uart.rs, between `handle_interrupt` and `read_byte_blocking`.
--   User         the record `Calls` of the system calls as the functions of user_bin/src/lib.rs give
--                them to a program. User.Args is `get_arg`, for an index that is in range.
--   User.Retry   `write`, `read` and `wait` of user_bin/src/lib.rs, which make a call again, with fuel
--                for the number of calls. Delivered is about `write`.
--   User.Wc      user_bin/src/bin/wc.rs. Chunks, Words, Digits and Files are its lemmas, OnFile runs it
--                on `sys_read` and `sys_write` of this kernel.
--   User.Sh      user_bin/src/bin/sh.rs: the parser (`parse_commands`), with Tokens, Parser, Steps and
--                Printer; Line is `read_line`, Pipeline `run_pipeline` and `spawn_command`.
--                Pipeline.Stdio takes laws of the calls on descriptors, Pipeline.Table has the calls
--                of Fd.Table, which satisfy them, without the mutex.
--   Bytes        little-endian numbers, padding and UTF-8.
--   The modules called Examples hold tests and instances.
--
-- Conventions
--   A byte, a word and an address are natural numbers. Where the code can wrap, the model wraps at
--   the same width. A mutable reference is a value that is passed in and returned; `None` and `Err`
--   are values. Most loops recurse on the number of steps that the code's bound gives. Some loops
--   have no such bound: that of `print_number` recurses on the order of the numbers, the parser of
--   `sh` has one unit of fuel for each byte of the line and one more, since each round takes a byte,
--   and the loops of `wc_fd` and of User.Retry have fuel that the caller gives, a unit for each call.
--   A call that spins on a mutex that its own code holds returns `none`. A directory chain of the
--   filesystem stands with its last directory first.
--
-- Not modelled
--   The mutexes other than that of the process table: each call is one step on the value that it
--   locks. Device registers, traps and assembly, with the entry to user mode and the return from
--   it. The lines that the kernel prints for diagnosis. The functions of the user library that
--   make one ecall: the programs take what they promise. The program `cat`, the commands of the
--   kernel's shell, and the outer loop and the built-in commands of `sh`. The heap is taken to
--   hold what the code asks for.
pub mod Base
pub mod Bytes
pub mod Fs
pub mod Fd
pub mod Machine
pub mod Proc
pub mod Sched
pub mod Elf
pub mod Loader
pub mod Shell
pub mod Syscall
pub mod Uart
pub mod User
