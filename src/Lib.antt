-- ===== src/Lib.antt =====
-- Diagnostic log and trace (DLT): src/shared/dlt_common.c with include/dlt/dlt_common.h and
-- include/dlt/dlt_types.h, where log messages are kept and taken apart;
-- src/shared/dlt_config_file_parser.c; the tables of src/daemon/dlt_daemon_common.c; and the
-- arguments of a message in src/lib/dlt_user.c.
--
-- The program: applications link the user library (src/lib), which builds messages and keeps
-- them in a ring buffer while the daemon is away; the daemon (src/daemon) takes the bytes in
-- through receivers, reads messages from them, keeps them in a ring buffer of its own until a
-- client comes, and passes them to clients and to the offline log storage. Viewers read messages
-- and choose among them by filters. All of these share the code of src/shared/dlt_common.c. The
-- daemon knows every application and context that has registered, in tables per ECU, and its
-- configuration and that of its log storage and gateway come from files of sections.
--
-- The files, by the part they model:
--
-- - Base, Memory: what all parts share: tests, lists with native indices, 32-bit words as
--   numbers below 2 ^ 32, DltReturnValue, blocks of memory as lists of bytes, and malloc as the
--   interface Allocator, which may fail at any size.
--
-- - Buffer: DltBuffer and the functions dlt_buffer_* but the two that only print. Shm is the
--   block that starts with DltBufferHead: write, read, count, and the bytes behind them. Buffer
--   has the operations on the block and its size, Buffer.Messages those on messages; the
--   destination of a pull or a copy is its room in bytes, and a write past it is none. Blocks,
--   Frames, Push, Grow, Init, Read, Take and Lost are theorems on single operations; Refine and
--   History compare with a queue.
--
-- - Message: DltMessage, dlt_message_init and dlt_message_free, the functions on the extra
--   parameters, and Message.Read with dlt_message_read, cut into the search for a message, the
--   headers and the payload. Pointers into the header buffer are offsets.
--
-- - Filter: dlt_set_id, dlt_print_id, and the functions on DltFilter. The parallel arrays are
--   one list of slots. Two ids are compared by their first four bytes. Filter.Matches says what
--   the tests on a slot tell, Filter.Slots and Filter.Changes are about adding and deleting,
--   Filter.Check about dlt_message_filter_check, Filter.File about the file, which is the list
--   of the words that fscanf finds.
--
-- - Receiver: DltReceiver and the functions dlt_receiver_*. The block that buffer points to is
--   held in the record, buf is an offset into it, and recv, read and recvfrom are the interface
--   Source. Receiver.Stream and Receiver.Rounds are about the bytes from one call to the next,
--   Receiver.Shared about a block that several receivers share, Receiver.Get about the start and
--   about dlt_receiver_check_and_get.
--
-- - Config: src/shared/dlt_config_file_parser.c without dlt_config_file_release, which only
--   frees. A file is its bytes; the static functions are named without the prefix
--   dlt_config_file_, and one round of the loop is one_line. Config.Values looks sections and
--   values up. A Grant says which blocks asked for in one round are given, those of strdup
--   included. Config.Sections, Config.Lines and Config.RoundTrip are about what is read,
--   Config.Invariant about any bytes, Config.Lookup about dlt_config_file_get_value.
--
-- - Search: qsort, bsearch and memcmp of the C library, as they are documented, on lists:
--   Search.Order has the comparison of ids as one of numbers, Search.Sorted, Search.Binary and
--   Search.Found are on tables in order.
--
-- - Daemon: the tables of src/daemon/dlt_daemon_common.c with src/daemon/dlt_daemon_common.h.
--   Daemon.Applications has dlt_daemon_application_find, _add and _del, Daemon.Contexts those on
--   contexts, Daemon the rest. A pointer into a table is an index, the allocated room is a
--   number of entries, and Memory says which allocations are given. Tables, Keys, Same, Sound
--   and Pending have the invariant; Find, ApplicationAdd, ApplicationAdded, ContextAdd,
--   ContextAdded, Deleted and Released are on single calls, History on any sequence of them.
--
-- - User: the calls dlt_user_log_write_* of src/lib/dlt_user.c that write an argument into the
--   buffer of a message. User has the ones for any type, which the calls in User.Values pass
--   their values to, User.Strings the one for texts, which those in User.Texts use. Written,
--   Named, CStrings, Head, Arguments, Raw, Truncated and Overrun are about the bytes that stand
--   in the buffer then.
--
-- Conventions: an int is the 32-bit pattern of its value, compared as signed where C does; the
-- host is little-endian; the padding that the compiler leaves in DltBufferBlockHead is a
-- parameter. The result none stands for undefined behaviour, such as an access outside a block.
-- Pointers to the objects themselves are not null, so the checks that guard against that are
-- left out; calls that print are left out.
--
-- Fuel: make_room, which grows a ring buffer until a message fits, has max_size + 1 rounds,
-- since every round adds at least one byte of step and stops at max_size. The search for a
-- serial header has one round for each byte of the buffer. The search in a table has one round
-- more than entries. All are shown to suffice.
--
-- Not modelled: the functions of dlt_common.c on message files and on printing, those of
-- dlt_daemon_common.c that read and write the files of the runtime configuration or send to
-- users, what else is in dlt_user.c, and the other directories: their work is mostly input and
-- output, and they are left to further modules.
pub mod Base
pub mod Memory
pub mod Buffer
pub mod Message
pub mod Filter
pub mod Receiver
pub mod Config
pub mod Search
pub mod Daemon
pub mod User
