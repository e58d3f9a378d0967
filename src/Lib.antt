-- ===== src/Lib.antt =====
-- A verification library for Carrots, a collection of C components: an in-memory file of data
-- blocks (libmfile), growing strings (libstralloc), UTF-8 helpers (str_utf8), a hash map (hashmap),
-- wrappers of other libraries (opus_api for the Opus codec, mysql_api for MySQL, ctapi_curl for HTTP,
-- ctapi_mc for memcached), the connection server (ctserver: the server ctserver.c starts a child
-- program, ctchild.c, for each connection; the child reads its socket into an in-memory file), and the
-- log master (ctprocesslog, which hands lines of a log to children).
--
-- The parts and their files:
--   Base      names of the libraries, Boolean tests and lists over the native numbers, integers.
--   Mfile     libmfile/mfile.c and mfile.h. The queue of blocks is a list, a block pointer is a
--             position in it, and a block holds the bytes written so far. mopen, mwrite, mwrite_head,
--             mseek, mseek_pos, mread, mgetc, mread_line, mwrite_file, mfile_copy and the sizes; the
--             children follow the proofs: Write, Read, Seek, Copy, Head, Line, Output, RoundTrip.
--             An allocator is a function from the number of blocks to success.
--   Stralloc  libstralloc/stralloc.c. Allocator is the arena and malloc below the strings, the file
--             itself the operations; Ready, Text and Prefix are about room, contents and comparison.
--   Utf8      str_utf8/str_utf8.c: Check, Count, Copy and Trim, one child for each function, and
--             Tidied, which relates what utf8_strncpy stores to the characters of its string.
--   Hashmap   hashmap/hashmap.c and hashmap.h, over a heap of entries whose next and prev are
--             addresses; Remove has deletion, freeing, walking and listing; Chain, Lookup, Fill, Insert
--             and Fresh are about chains, finding, inserting and new maps. Rows and Shape say what the
--             buckets hold while entries are moved between them, Relink, Grow and Regrow are about
--             hashmap_link and hashmap_grow, Primes about the sizes; Refine and Finite relate the
--             map to a finite map from keys to values, and Sequence a run of insertions.
--   Opus      opus_api/SCOpusAPI_ios.c: the bytes, samples and files; Encode is encode_with_opus and
--             Decode is decode_with_opus. Framing, Frames, Produce, Encoded, Packets, RoundTrip and
--             Header are about bytes, the frames of the input, the packets written, the whole
--             encoding, the packets read, both together, and the WAVE file.
--   Mysql     mysql_api/mysql_api.c: connecting, queries and results with one reconnection; Calls is
--             about a query, Session about results and Whole about whole sessions.
--   Curl      ctapi_curl/ctapi_curl.c: the callbacks and submit_data_to_http; Receive is about
--             one piece, Submit about a whole transfer.
--   Mc        ctapi_mc/ctapi_mc.c: set_mc, get_mc and delete_mc; Calls has the proofs.
--   Ctserver  ctserver/src/ctserver.c and ctserver.h: Config is read_config; the file itself has the
--             table of children, Connection the handler of a connection in the parent, Events that of
--             a hang-up and the body of the event loop; Table, Accept and Hangup are the proofs.
--   Ctchild   ctserver/src/ctchild.c: read_config, and the two functions that read the socket: Socket
--             and Segment. They call mwrite of Mfile, and their proofs use its theorem.
--   Ctlogic   ctserver/src/ctlogicprocess.c: socket_protocol_process, which takes the commands out of
--             that file with mread_line of Mfile. Forward is about what of a line is handed to the
--             client, Whole about a file that holds one command.
--   Ctutils   ctserver/src/ctutils.c: fd_copy, fd_move, create_unique_id, byte_copy, and what the child
--             does with its descriptors in ctserver/src/ctserver.c; Move is about the descriptors,
--             Bytes about ids and copies.
--   Ctmaster  ctprocesslog/ctmaster.c, ctmaster.h and ctutils.c, the log master: read_config, the
--             table of children, process_via_child, sigchld_exit, the loop over the lines,
--             is_dir_exits and is_need_master_exit. Reap is about the children, Directories about
--             is_dir_exits.
--
-- Conventions. Numbers are natural numbers, with the wrapping of unsigned types written out where the
-- code's arithmetic can reach it; the sizes of an in-memory file are sums that wrap around when they
-- are read, and its other ints are assumed to stay below 2 ^ 31. Bytes are numbers; a char is signed, as on the usual compilers, where
-- its value matters. A result of none stands for undefined behaviour, or for a loop whose fuel or input
-- ran out; that this does not happen is part of the theorems. System calls, calloc, malloc and the
-- dictionary of the configuration parser are arguments that say what they return. So are the other
-- libraries: a codec is a record of functions on a state that is not looked into, and so is the MySQL
-- client; for libcurl and memcached the arguments are what they hand over and answer.
--
-- Fuel. The loops of mwrite, mread, mread_line and mfile_copy have one unit for each byte and one more;
-- those of str_utf8 one for each byte; those of hashmap one for each cell of the heap, since a chain
-- visits a cell once at most. The loops of opus_api have one for each byte of their input and one more,
-- those of mysql_api two, since a lost connection is opened again once. The theorems that these
-- operations return show that this is enough. That of socket_protocol_process has one unit for each
-- line and one more, which also bounds the pieces of a line that is too long.
--
-- Not modelled: mclose, which only frees; the test programs; the set-up, signals and daemon code of the
-- programs' main functions; logging; the statistics that opus_api prints; the options that are handed on
-- to libcurl and memcached. The parsers confparser, iniparser and dictionary, base64 and queue.h come
-- from other projects. The init_for_rindex of the log master and
-- the event loop of ctchild.c are left for later.
pub mod Base
pub mod Mfile
pub mod Stralloc
pub mod Utf8
pub mod Hashmap
pub mod Ctserver
pub mod Ctchild
pub mod Ctmaster
pub mod Opus
pub mod Mysql
pub mod Curl
pub mod Mc
pub mod Ctlogic
pub mod Ctutils
