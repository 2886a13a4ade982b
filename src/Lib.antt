-- ===== src/Lib.antt =====
-- The library libtta: messages between a client and its devices over a serial line (RS485), over
-- TCP, or over a radio chip (CC1120).
--
-- The parts. A message (`ttamsg_t`: device, sub-device, command and data) is turned into a packet
-- by the transport, sent, received, checked and turned back. The engine (src/tta.c) does this over
-- a table of functions, `tta_backend_t`, of which each transport has one: src/tta_rs485.c,
-- src/tta_tcp.c, and src/tta_rf.c, which drives the chip through src/cc1120.c. Packets of the serial
-- and of the radio transport end with two checksums; those of TCP carry a transaction number.
--
-- The files.
-- - Base: names that all share; Base/Run, what a call does: it returns a value and a state, it makes
--   an undefined access (`fault`), or its loop is not over (`stuck`); Base/Buffer, arrays;
--   Base/Heap, blocks and pointers to them.
-- - Context, Syscall, Link: `tta_t` with what its `backend_data` points to, `errno` and the world
--   outside as one state; results of system calls; the table of functions, as records.
-- - Message, Strlcpy, Checksum, Data: `ttamsg_new` and its like, `strlcpy`, `sum_xor` and `sum_add`,
--   and src/tta_data.c. Message/Heap has the functions on messages once more, with pointers and a
--   heap, to tell who owns a block, and Context/Heap and Rs485/Modes/Heap have the blocks of a context.
--   Errors: `tta_strerror`.
-- - Core: `_send_pkt`, `_tta_receive_pkt`, their recoveries (Core/Engine), and `tta_send`,
--   `tta_receive`, `tta_reply`, `tta_request` (Core/Api). Core/Sound states what the engine relies
--   on from a transport, Core/Stream what it makes of bytes that come in order, in pieces, and
--   Core/Confirm what a request returns, Core/Whole and Core/Request which messages are handed out,
--   and Core/Reply which one is sent for an answer. Core/Owned is `tta_send` and `tta_reply` with the heap.
--   Core/Session has programs: sequences of calls of the library on one context, while anything may
--   change outside. Context/Keeps and Core/Keeps are the rules by which calls keep a predicate of the
--   private data.
-- - Packet, Wait: what the transports have in common, the layout of packets and the wait for input.
-- - Rs485, Tcp, Rf: the transports. Their systems are records of functions (Serial, Sockets), which
--   the theorems take as parameters. Rs485/Win32 has the branches for Windows, over the record
--   Windows, and Tcp/Win32 those of Winsock. Cc1120: the chip, behind the record Spi. In each
--   transport, Device/Message is about sending, Device/Stream about receiving and Device/Dialog
--   about a client and a server at the two ends; Session has the calls of the transport that
--   programs make besides those of src/tta.c. Rs485/Kernel has the branches for `TIOCSRS485`.
--   Rs485/Settings compares the settings of the line on POSIX and on Windows. Rf/Transfer/Clock and
--   Rf/Transfer/Polling are about the waits of the radio, and Rf/Transfer/Arrival about a packet
--   that arrives meanwhile.
-- - Tests: concrete systems, and the theorems at work on them.
--
-- A C function keeps its name, less the prefix that its module's name stands for:
-- `_tta_rs485_conv_ttamsg2pkt` is Rs485.Packet.conv_ttamsg2pkt. A return code -1 is `none`. A buffer
-- is the list of its bytes, and an access outside of it is `fault`.
--
-- Bounds. Loops that count are recursive in their count. Loops that wait for the outside take a
-- number of rounds, and theorems that say that they end assume that signals, failures or busy
-- answers come fewer times in a row. `_tta_receive_pkt` needs no such bound of its own: each round
-- reads a byte at least, so a round for each byte of the buffer and one more are enough. The waits of
-- the radio end by the clock: a round takes a millisecond, or a tenth of a second, at least.
--
-- Not modelled: the output in debug mode and `ttamsg_print`; `tta_reply_exception` and
-- `cc1120_send_packet`, which are compiled out; `change_rf_mode` and
-- `_tta_rf_ioctl_rts`, which nothing calls. `malloc` does not fail. The descriptor sets for `select`
-- are left out, so that what is said of accesses does not cover `FD_SET`, which needs a descriptor
-- from 0 to 1023. `Sleep`, which `_sleep_and_flush` calls on Windows, stands as `nanosleep`. In the
-- transports a message is a value: that `conv_ttamsg2pkt` of each ends with `ttamsg_free` is left
-- to Core/Owned, which has `tta_send` and `tta_reply` with the heap.
pub mod Base
pub mod Checksum
pub mod Strlcpy
pub mod Context
pub mod Message
pub mod Errors
pub mod Link
pub mod Syscall
pub mod Core
pub mod Wait
pub mod Packet
pub mod Rs485
pub mod Tcp
pub mod Cc1120
pub mod Rf
pub mod Data
pub mod Tests
