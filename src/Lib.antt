-- ===== src/Lib.antt =====
-- pico-shell: a shell with a scheduler, a paged memory and a small file system.
--
-- Base holds shared helpers: Base/Tests (Boolean tests), Base/Lists (arrays as lists), Base/Words (C
-- ints as 32-bit patterns), Base/Memory (memcpy on areas of bytes), Base/Bits (the bits of a byte),
-- Base/Layout (words in memory) and Base/Strings (strcmp).
--
-- Fs models src/fs, layer by layer. Fs/Disk is fs/disk.c, Fs/Block is fs/block.c, Fs/Bitmap is
-- fs/bitmap.c, Fs/Data is fs/data.c, Fs/Inode is fs/inode.c, Fs/File is fs/file.c, Fs/Directory is
-- fs/directory.c, Fs/Path is fs/pathname.c and Fs/Calls is fs/fs.c; the definitions carry the
-- functions' names. The disk is a function from addresses to bytes; a function that writes takes the
-- disk and returns its result beside the new disk, with `none` for -1, so that what was written
-- before an error stays written. Structs are laid out on the disk byte by byte, as the compiler lays
-- them out on a 64-bit machine with the lowest byte first. Pointer arguments are options, with `none`
-- for NULL. Ints are 32-bit patterns; sums wrap, where the C standard leaves a signed overflow
-- undefined. Strings are lists of characters without their terminator. What an uninitialised variable
-- holds is an argument. Messages to stderr are left out.
--
-- Memory models src/memory: Memory/Variables is memory/variable_store.c, Memory/Lru is memory/lru.c,
-- Memory/Frames is memory/frame_store.c, and Memory/Manager is memory/memory.c with the struct of
-- scheduling/pcb.h, whose instances are numbered. The nodes of the linked list are numbered, and a pointer
-- is an option; malloc always succeeds. A NULL that the code follows, or an index outside an array,
-- gives `none`. The sizes are the header's defaults: frames of 3 lines, 300 lines, 10 variables.
--
-- System holds what the functions above these layers work on: the variables of all files in one record,
-- the processes that malloc has given out, and the output, one line at a time and the last one first.
-- A function returns with a new record, or ends the program, or does what C leaves undefined, or has no
-- fuel left. What the operating system answers to fopen, fgets, fclose, fork, waitpid and system is a
-- parameter, the record Host, and so is what uninitialised variables hold.
--
-- Scheduling/Queue is scheduling/ready_queue.c: the processes are linked by their pointers, and the
-- loops over them take process_count rounds. Scheduling/Process is scheduling/pcb.c. A process
-- whose name has ended is freed: a write to it through a stale pointer of the frame table is undefined,
-- and malloc gives no address twice. Scheduling/Scheduler is
-- scheduling/scheduler.c: the policies, with parseInput as an argument.
--
-- Commands models src/commands and src/utils: Commands/Messages is utils/badcommand.c,
-- Commands/Names is utils/utils.c with the commands help and quit, Commands/Variables is set, print
-- and echo, Commands/Files is mkdir, rmdir, cd, touch and ls, and Commands/Programs is exec, run and
-- fork. Core models src/core: Core/Tokens is the splitting of an input in core/shell.c,
-- Core/Interpreter is core/interpreter.c, and Core/Shell is the rest of core/shell.c, where
-- parse_input is parseInput.
--
-- The shell reads a line, and parseInput splits it and hands each command to the interpreter; exec
-- and run make processes, which load their pages into frames, and the scheduler fetches their lines
-- through the page tables and hands them to parseInput again. The file system's commands work on
-- the disk; exec and run read the files of the host. The theorems of the schedulers are on programs
-- whose lines act on the variables, the disk and the operating system alone; Core/Shell/Program is on
-- the lines whose commands are none of run, exec, quit, mkdir, rmdir and cd, and Core/Shell/Exec on the
-- line that starts such programs. Frames are not given back when a process ends, so that these theorems
-- ask for a vacant frame for each page: without one, the frame of a freed process is evicted. A path
-- with a component of 59 characters or more is undefined for mkdir, rmdir and cd, where its name is
-- written.
--
-- The loops of file_read and file_write take the byte count as their fuel: each round moves a byte at
-- least. The scan of a directory takes a round for each entry and one more, and the walk along a path
-- takes the length of the path: every round takes a component off it. The search of
-- access_frame takes a round for each node: there are two more of them than frames. The loop over a
-- command's words takes a round for each character and one more. The loops of the schedulers take
-- the fuel that parseInput is given, less what the depth of scripts that run scripts has used.
--
-- Not modelled: the release of memory other than that of a process, a malloc or strdup that fails,
-- messages to stderr, what ls and a forked program print, and the warnings that
-- mem_load_page_into_frame and fstore_set print for what is out of range. Bounds that the code leaves
-- to its callers are theirs here too: the words of set are those of a line, which fit the array of
-- MAX_USER_INPUT characters that they are joined in; an inode number is one of the table when
-- inode_free looks at its bit; the offset of file_read is not negative, as no caller's is; a name in a
-- directory ends inside its 59 characters, as the names that dir_add was given do.
-- src/vendor/unity is another project's library.
pub mod Base
pub mod Fs
pub mod Memory
pub mod Scheduling
pub mod System
pub mod Commands
pub mod Core
