-- ===== src/Lib.antt =====
-- libac: a C library of containers and utilities, modelled file by file.
--
-- Parts and files
--   CircBuf (src/ac_circ_buf.c): the record `CircBuf` has the fields of `ac_circ_buf_t`; the
--     operations are the functions of the file less the prefix `ac_circ_buf_`. Arithmetic is modulo
--     2 ^ 32 as the `u32` fields have it. Children: Index and Window (offsets and windows of a ring),
--     Valid (the invariant and the counts), Store, Push, Pushm, Pop, New, Foreach, Run (a call
--     sequence against a bounded queue).
--   Heap: an explicit heap, a partial function from addresses to nodes, with the caller's list
--     variable and the calls made, and the positions in a list, which are `long`; an operation is a
--     function from such a store to an optional result and store. Children: Nodes and Erase (lists of
--     nodes).
--   Slist (src/ac_slist.c): singly linked lists on that heap. Children: Chain (what a list on the
--     heap is), Read, Add, Reverse, Remove.
--   Dlist (src/ac_list.c): doubly linked lists on that heap; the functions are those of the file less
--     the prefix `ac_list_`. Children: Chain, Read, Add, Preadd, Reverse, Unlink, Remove.
--   Queue (src/ac_queue.c): the record of `ac_queue_t` over a Slist store; Laws.
--   Str (src/ac_str.c): strings as lists of bytes. Children: Levenshtein (the two-row routine against
--     edit scripts), Split, Chomp, Substr.
--   Misc (src/ac_misc.c): byte units, the Luhn check, the shuffle, hash and comparison functions.
--     Children: Units, Luhn, Shuffle, Hash, Salt (`ac_misc_passcrypt`).
--   Uuid (src/ac_misc.c, src/platform/linux/gen_uuid.c): `ac_misc_gen_uuid4` on Linux; Laws.
--   Htable (src/ac_htable.c): the table over bucket lists, with the hash function and the comparison
--     as arguments. Children: Buckets, Count, Laws.
--   Time (src/ac_time.c): differences, hours, and the sleep over `nanosleep(2)` as an argument; Laws.
--   Net (src/ac_net.c): whether an address is in a network, with `inet_pton(3)` as an argument.
--     Children: Floor (leading masks), Laws, Lookup (ports, addresses as text, the lookups of names)
--     with its Laws.
--   JsonLoad (src/ac_json.c): the text of a file over the system calls; Laws.
--   Floats: the doubles of C and math.h as a record of operations, with what IEEE 754 says of them.
--   Geo (src/ac_geo.c): degrees, and the haversine formula. Children: Direct (Vincenty's formula), Grid
--     (what the two conversions share), ToLatLon, ToGrid (the conversions), Laws.
--   Btree (src/ac_btree.c): the tree over the functions of search.h, which are fields of a record.
--     Children: Laws (what their manual pages say, and removal), Lists (a list as the tree).
--   Quark (src/ac_quark.c): numbers for strings, over Btree. Children: Names (the nodes of a list of
--     strings), Laws, Runs (several calls).
--   Fs (src/ac_fs.c, src/platform/freebsd/fallocate.c): names, `ac_fs_mkdir_p` and `ac_fs_copy` over
--     the system calls. Children: Mkdir (the directories asked for), Dirs (what is there at the end),
--     Names, Copy.
--   FileCopy (src/platform/linux/file_copy.c, src/platform/freebsd/file_copy.c): `file_copy` over the
--     system calls; Laws (Linux), Freebsd.
--   Jsonw (src/ac_jsonw.c): the JSON writer over a text and the size of its buffer. Children: Escape
--     (a reader of escaped strings), Buffer (`json_build_str`), Closing (`__json_end`), Render (a
--     document as a tree, the calls that write it and its text) with its Laws, Parse (a reader of JSON
--     texts) with Lex, Strings, Scalars, Reals and Entries (the tokens of the pieces of a text), Tree
--     (a document's value and tokens), Steps (the parser on tokens), RoundTrip.
--   Mem: `memcpy` and reads inside an array; Bits: masks by `&`; Prelude: shared names and lemmas, and
--     runs of a step relation (Steps).
--
-- Bounds and fuel
--   The walks of Slist, Dlist and Queue take fuel and return `none` when it is spent; the theorems
--   need fuel above the length of the list, and state that the result is there. `none` is also
--   what an access outside an array or at an address without a node gives, so a theorem that a
--   call returns says that no such access happens. `ac_str_split` needs fuel above the length of
--   the string plus one, the Luhn loop has the 20 that a `u64` has digits, the loop that grows a
--   buffer has one unit for each byte, and the sleep needs one unit for each call. `malloc` gives
--   any unused address that is not NULL, and never fails. `ac_fs_mkdir_p` has `PATH_MAX` 4096 and
--   fuel above the length of the path; `ac_quark_from_string` gives `none` where its `int` would
--   overflow. `ac_json_load_from_file` needs fuel above the number of bytes to be read.
--
-- Not modelled
--   `double` is an abstract type: its operations are arguments, so nothing is said of the size of a
--   rounding error or of whether a loop of ac_geo.c comes to its tolerance; those loops have fuel and
--   return `none` when it is spent. The order that a tree calls `action` and `free_node` in is the
--   libc's. platform/freebsd/gen_uuid.c only calls a library;
--   random_r.c, twalk_r.c and tdestroy.c are copies of other projects' files; test.c prints.
pub mod Prelude
pub mod Bits
pub mod Mem
pub mod CircBuf
pub mod Heap
pub mod Slist
pub mod Dlist
pub mod JsonLoad
pub mod Queue
pub mod Str
pub mod Misc
pub mod Uuid
pub mod Btree
pub mod Quark
pub mod Fs
pub mod FileCopy
pub mod Htable
pub mod Time
pub mod Net
pub mod Floats
pub mod Geo
pub mod Jsonw
