-- ===== src/Lib.antt =====
-- The labs of NEU CS5600, five C programs that share no code: a Caesar cipher and a linked queue
-- (lab1), a shell (lab2), a key-value server (lab3) and a file system (lab4). Each directory of
-- this library stands for one part of them; Base has what all parts share: Boolean tests, lists
-- and integers over the native numbers, byte strings as the C string functions see them, and
-- chains of steps that may fail. A C string is the list of its bytes without the NUL, a buffer the
-- list of all its bytes, and a pointer to a node an address in a heap, which is a function from
-- addresses.
--
-- lab1. Caesar is lab1/caesar.c: encode and decode, in which a sum that overflows an int is
-- undefined, as in C; the inner loops of decode run on fuel, the distance below zero, and each round adds at least
-- one. Queue is lab1/queue.c: nodes on a heap, with head and tail; Cells has the nodes and list
-- segments for it and for the queue of lab3. take_node is what the callers of dequeue in
-- lab1/queue_main.c do with a node. free_queue and print_queue run on fuel, one round for each
-- node and one for the end. Lines is the two programs: process_cmd cuts a line into words,
-- Lines.Memory puts several queues on one heap with malloc as a parameter, Lines.Plain is
-- lab1/queue_main.c and Lines.Undo lab1/ciphered_queue_main.c, whose gq is a list of queues with the
-- last one first. malloc may return memory that was freed, but none in use. The loops over nodes run
-- on fuel, and more rounds than the file has lines are enough, since a line adds one node at most.
--
-- lab2. Shell.Token is the tokenizer of lab2/cmdparse.c, with parse_gettoken and parse_ungettoken;
-- a position is what is left of the line. Shell.Parse is its recursive parser, cmd_parse and
-- cmd_line_parse; a failed assertion is a result (crash), and so is NULL (syntax_error). The fuel
-- bounds the open calls and the tokens they read: three for each character of the line, and two,
-- are enough, since each command, operator and subshell uses up a character. Shell.Parse.Shape
-- describes the lists the parser may give, and Shell.Print (cmd_print), Shell.Free (cmd_free) and
-- Shell.Exec rely on that shape. Shell.Exec is lab2/cmdrun.c: cmd_line_exec with what becomes of
-- each command as an argument, and the builtins of cmd_exec in the child and in the parent with
-- the answers of the system calls as arguments. Shell.Exec.Fds is the descriptors of cmd_exec: the
-- table of the shell and of the child, with pipe and open as parameters that return numbers not in
-- use; open is given its flags.
--
-- lab3. TaskQueue is lab3/queue.c, the queue of accepted sockets: each function holds the mutex
-- from start to end, so it is one step; TaskQueue.Pool puts the listener of lab3/dbserver.c and
-- the workers of lab3/worker.c round it as a step relation. Kv is lab3/kvstore.c: the chained
-- table with kv_read, kv_write, kv_delete and kv_dump, and in Kv.Monitor the lock and condition
-- round them as a step relation between any number of readers and writers. Server is lab3/worker.c
-- with lab3/stats.c, whose counters are ints of 32 bits: dispatch and its handlers over a Kv store, the results of read on the socket
-- being an argument; Server.Wire has the bytes of struct request (lab3/lab3.h) and the answer as it
-- is written on the socket. Client is lab3/dbclient.c: do_set, do_get, do_del and do_quit on what
-- read returns, and in Client.Options the command line. Client.RoundTrip puts client, server and
-- store together. The clients of Kv see it through the theorems of Kv.Write and Kv.Delete on
-- the invariant of Kv.Buckets.
--
-- lab4. Fs is lab4/fs5600.c over the disk of lab4/misc.c: a disk is a count of blocks with the
-- bytes of each, the offset of a block is the int that lab4/misc.c computes, which holds those of
-- the first 2 ^ 19 blocks, and an operation is a step on it (Fs.Monad) that ends with a value, an error
-- code, or outside what C defines. Fs.Bitmap and Fs.Alloc are the block map, Fs.Block the layouts
-- of lab4/fs5600.h, Fs.Dir the directory blocks, Fs.Path the path functions, Fs.Attr, Fs.Read,
-- Fs.Change and Fs.Write the callbacks. The clock, the ids of the caller and what an uninitialised
-- inode on the stack holds are arguments. Loops over blocks, entries and bits recur on the number
-- of rounds that are left; the loops of read and write on the number of bytes.
--
-- Not modelled: sockets, threads' creation, terminals, printf beyond the text that is printed, and
-- process exit, which are the system's; the console and the signal handler of lab3/dbserver.c; the
-- random concurrency test in lab3/dbclient.c; the start of FUSE in lab4/lab4fuse.c; test programs
-- and scripts.
pub mod Base
pub mod Cells
pub mod Caesar
pub mod Queue
pub mod Lines
pub mod TaskQueue
pub mod Kv
pub mod Server
pub mod Client
pub mod Shell
pub mod Fs
