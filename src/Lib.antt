-- ===== src/Lib.antt =====
-- daemonlib: the C library that the daemons brickd and redapid share. A daemon runs one event loop
-- (event.c), which calls back into the code that has registered a handle. Packets (packet.c) go to a
-- recipient through a writer (writer.c), which keeps what the recipient cannot take yet in a queue
-- (queue.c) and registers for write events while there is something in it. The logger hands its bytes to
-- a thread through a FIFO (fifo.c). A ring buffer (ringbuffer.c), base 58 numbers for UIDs (base58.c) and
-- configuration files (conf_file.c) stand beside them. A timer (timer_posix.c, timer_winapi.c, timer_uwp.c)
-- is a thread that writes to a pipe, which is an event source of the loop.
--
-- Files and the sources they model
--   Base            shared names, Boolean tests, lists, `int` values, rings in flat arrays, tables
--   Fifo            fifo.c: Spec is a bounded queue; Sizes, Loops, Write and Read show that the ring
--                   implements it; Threads, Progress and Order interleave threads
--   Array           array.c: Slots and Blocks are the items in the block of memory, Append, Remove and Resize
--                   what the functions do to them
--   Ringbuffer      ringbuffer.c: Refine and Remove relate the ring to the list of its bytes
--   Base58          base58.c: Digits, RoundTrip, Overflow
--   Queue           queue.c on a heap: Chain is the list in memory, Refine what each function does to it
--   Event           event.c: Lookup and Sources treat the array as a map, Cleanup the marking and removal,
--                   Handle the callbacks, Init starting and stopping, Keeps what stays in place; Poll is the
--                   loop of event_posix.c, Order which sources it handles; Epoll is the loop of
--                   event_linux.c; Agreement compares the two, AnyOrder for events in any order
--   Writer          writer.c: Bytes and Stream are what the recipient gets, Delivery what becomes of a
--                   packet, Backlog the bound of the backlog
--   Log             log.c: Forward has the thread that takes messages from the FIFO, with Framing and Delivery;
--                   Filter the parser of the debug filter, with Bounds and RoundTrip; Inclusion what the
--                   filters include, with Masks, Verdict and Check; Output the outputs, with Rotation
--   ConfFile        conf_file.c: Text escapes and unescapes and cuts lines, Lines parses them, Options
--                   reads and sets options, File reads and writes files
--   Config          config.c: Checks are the values that options can have
--   Timer           timer_posix.c, timer_winapi.c and timer_uwp.c: Posix, Winapi and Uwp are the functions
--                   of each, with Create, Lost and Repeats; the record Backend is what they have in common,
--                   for which System interleaves the two threads: Freshness and Meaning are about the
--                   calls, Pairing and Handshake about the interrupt; Alone is the thread without
--                   interrupts; Create and Configure compare the three
--   Socket          socket.c and socket_posix.c: Server opens the sockets of a server, with Closing and Opening;
--                   Accept takes connections
--   Utils           utils.c: Buffers are strings in buffers, Search is strcasestr, Endian the order of bytes
--   PidFile         pid_file.c: processes that share a PID file, with Exclusion
--   Node            node.c: Ring shows that lists stay circular
--   Packet          packet.c: Fields are the bits of the header, Matching validity and responses
-- Each component has its state as a record, one function per function of the source, under its name, and
-- a module Tests with runs at concrete values.
--
-- Models
--   A function that changes an object returns the new object beside its result. Numbers are natural
--   numbers; the width of an unsigned field is written out where the source cuts to it, and what `int`
--   arithmetic could make negative is shown or commented not to be. A thread that blocks ends its step
--   with `waits`; the function `wake` is its next step. The heap of queue.c is a function from pointers to
--   nodes, and an access to a free node is a fault. What the platform, the allocator or the socket returns
--   is an argument. The callbacks of an event source are a function on the sources, and the return of
--   `event_run_platform` is one on the loop, where event.c is concerned. The system calls of sockets are a
--   list of what was called. The threads of a timer and the processes of a PID file are step relations
--   with any interleaving of their steps.
--
-- Fuel
--   The loops of fifo_write and fifo_read get one round more than there are bytes to move, and a round
--   moves at least one byte; queue_destroy one more than the count; base58_encode the eight cells of its
--   buffer, of which six are used; log_forward and the parser of the debug filter the length of
--   what they read; unescaping the length of the string. The loops of event.c and
--   conf_file.c that walk an array backwards recurse on the index.
--
-- Not modelled
--   The calls of the logger, the text of its lines, the formatting of packets for it, platform code
--   (threads, pipes, signals, GPIO, the timers of timer_linux.c and the sockets of socket_winapi.c), the
--   parts of utils.c that wrap the platform, and so far io.c and enum.c. Failing allocations,
--   reads and writes in conf_file.c are left out, and so is freeing strings in config.c.
pub mod Base
pub mod Array
pub mod Fifo
pub mod Ringbuffer
pub mod Base58
pub mod Queue
pub mod Event
pub mod Writer
pub mod Log
pub mod ConfFile
pub mod Config
pub mod Packet
pub mod Node
pub mod Timer
pub mod Socket
pub mod Utils
pub mod PidFile
