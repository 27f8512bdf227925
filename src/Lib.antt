-- ===== src/Lib.antt =====
-- bvgz-vm: a virtual machine with its own byte code, and its assembler.
--
-- The program's parts. `src/parser.c` reads assembly text into instructions,
-- labels and a data section; `src/bytecode_gen.c` turns these instructions into code bytes. `src/bytecode.c` decodes one instruction from them.
-- `src/vm_exec.c` runs the machine: a round takes the procedure at the head of a list, decodes the
-- instruction at its pointer and calls the handler that the table `src/instns/instn_defs.inc` gives
-- for its opcode. The handlers, `src/instns/instn_impl_*.c`, read and write the memory block and the
-- call stack of the procedure (`src/vm.c`), and `syscall` calls the functions of `src/syscalls/`.
-- Timers (`src/timers.c`) and the other event sources start procedures.
--
-- The files, and the code that each one models:
--   Common            tests, options and lists over the native numbers
--   Memory            blocks of bytes and the casts `lref8` to `lref64` of `src/instns/instn_impl.h`
--   Vm                the structures of `src/vm.h` and the headers that it includes, and the monad of
--                     the code that changes `vm_t* vm`
--   Vm.Procedures     `src/vm.c`: make_vm, make_procedure, make_func_procedure, push_call_stack,
--                     pop_call_stack, delete_current_procedure, make_vm_timer
--   Links             `src/util/list.c`, its nodes in a store;  Links.Chain: linked cells, and the
--                     list's operations on them;  Links.Queue: the list of procedures as `src/vm.c`
--                     and sys_yield keep it, and that it is the sequence that `Vm` has
--   Vm.CallStack      laws of the call stack;  Vm.Access: laws of the accesses to the memory
--   Instn             `instn_t` and arg_value;  Instn.Table: the table, its sorting and its opcodes,
--                     with the laws of the sorted table in Instn.Table.Order
--   Instn.Arith, Instn.Bitwise, Instn.Logic, Instn.Access, Instn.Control
--                     the handlers: arith and rel, bitw, logc, misc with deref_mem_ptr, ctrl
--   Instn.Alu, Instn.Words, Instn.Calls, Instn.Pointers    laws of the handlers
--   Decode            decode_instn of `src/bytecode.c`
--   Format            the instruction format of `doc/vm.md`, as a description of its own;
--                     Format.Decoding and Format.Instruction: that the decoder reads it
--   Syscall           what the machine asks of the operating system;  Syscall.Misc, Syscall.Mem,
--                     Syscall.Timers: `src/syscalls/syscall_misc.c`, `src/syscalls/syscall_mem.c`,
--                     `src/timers.c`;  Syscall.Laws, Syscall.Timers.Arrays,
--                     Syscall.Timers.Sweeping: their laws;  Syscall.Io and its Events, Calls:
--                     `src/syscalls/syscall_io.c`, with laws in Syscall.Io.Table, Syscall.Io.Limits;
--                     Syscall.Procs: `src/syscalls/syscall_proc.c` but exec and run, and
--                     its table in Syscall.Procs.Table
--   Exec              `src/vm_exec.c`, cleanup_vm, op_syscall_3 and the table of system calls;
--                     Exec.Rounds: laws of a round;  Exec.Faults: runs with undefined behaviour;
--                     Exec.Keeps and its children: what no run changes
--   Codegen           parse_to_bytecode and its helpers of `src/bytecode_gen.c`;  Codegen.Buffer,
--                     Codegen.Emission, Codegen.Sizes, Codegen.Roundtrip, Codegen.Program:
--                     that it writes the format
--   Image             read_bvgz_image and write_bvgz_image_direct of `src/bytecode.c`;  Image.Bytes,
--                     Image.Laws: that the one reads what the other writes
--   Asm               `src/parser.c`: the result of a parse and add_label;  Asm.Number: strtoull and
--                     strtoul;  Asm.Arg: parse_arg;  Asm.Instruction: parse_instn, add_instn;
--                     Asm.Section: ensure_memory_alloc, write_to_memory, set_memory_size;
--                     Asm.Data: the data that a directive adds;  Asm.Directive:
--                     parse_preproc_data;  Asm.Lines: parse_line;  Asm.Files: parse_asm;
--                     Asm.References: resolve_data_label_refs, resolve_entry_point
--   Asm.Text, Asm.Number.Text, Asm.Arg.Text, Asm.Data.Text, Asm.Lines.Tokens
--                     instructions, numbers and literals as texts, and that they are read back
--   Asm.Sound         what every operation of the parser keeps, for lines, data, instructions and
--                     arguments;  Asm.Instruction.Table, Asm.Section.Growth, Asm.Data.Zero,
--                     Asm.Directive.Fuel, Asm.Files.Root, Asm.References.Laws: laws of the parts
--   Tests             a small machine, and the properties at concrete inputs
--
-- How the state corresponds. `Vm` is `vm_t` with `io` and `proc` flattened into it. A block is
-- its size and its bytes; an access outside it is undefined behaviour and makes the run `none`,
-- and so is a shift by 64 or more, a `memcpy` of ranges that overlap, and a read of an empty
-- list. A pointer into the memory is its offset. An operand of an instruction is a value or such
-- a pointer, and the one is never read as the other: a host address has no value here. Machine
-- integers are native numbers with each wrap-around written out.
--
-- Assumptions. `malloc` succeeds, and so does `realloc` but in the system calls that test it.
-- `qsort` keeps the order of equal entries, as glibc's merge sort does. The three calls of
-- fire_vm_events run from left to right. The answers of the operating system and of the allocator
-- are the fields of `Host`, one of them for each round. So are the calls of `src/syscalls/` that are not
-- modelled and the handlers of network events, each with an `Effect`: the bytes that it stores in the
-- memory and the new tables, since these files reach the memory through `deref` alone and name neither
-- the code nor the sizes. A result of `fread` or `fwrite` is short only at the end of the file or of the room on the
-- device.
--
-- Bounds. execute_vm takes the number of its rounds as fuel, since a program may run for ever;
-- the theorem about it is of every number of rounds. The sweep over the timers has as many
-- rounds as there are timers, since each one passes or removes a timer. The growth of the code
-- buffer has as many rounds as bytes are needed, since every block that is added holds bytes.
--
-- The growth of the data section has as many rounds as bytes are asked for, since a round adds bytes
-- until the size wraps, and the same sizes follow behind a wrap. The options of a directive
-- have as many rounds as its text has characters. The depth of files that include one another is
-- fuel, since files may include themselves.
--
-- Of a line of assembly text a string is the text up to its NUL, and a pointer that passes the NUL is
-- undefined, as is the read of a file that does not open. Labels are the lookup function of their
-- hash map; `Env` holds the map, the set and the file system. File names and line numbers, which serve
-- the messages alone, are left out, and `errno` is the fact whether it is `ERANGE`,
-- which a failing `stat` ends. A failed assertion aborts and is undefined here.
--
-- The walks along a list have as many rounds as it has nodes. `malloc` gives an address that no node
-- has had. The descriptors are fewer than 2^32.
--
-- Not modelled: the hash map, which is a copy of another project's and an argument here, the debug
-- section of image files, the system calls on files and sockets, exec and run, what frees a machine
-- at its end, the debugger, and the programs' command lines.
pub mod Common
pub mod Memory
pub mod Vm
pub mod Instn
pub mod Decode
pub mod Syscall
pub mod Exec
pub mod Format
pub mod Codegen
pub mod Asm
pub mod Links
pub mod Image
pub mod Tests
