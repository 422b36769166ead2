-- ===== src/Lib.antt =====
-- PadoFS: the inode server and the mapping server.
--
-- An inode server keeps, for each file, its layout: which extent of which data object holds which
-- range of the file. Data objects live on data object servers (DOS). What no extent holds is a
-- hole, kept in the base file, which has the inode's own number. Clients send requests; the
-- accepting thread of `main` puts them into a queue, worker threads serve them, and each takes the
-- lock of its inode as the request needs it. The mapping server keeps a table from the numbers of
-- base files to the numbers of inodes. It is used where incont.c is built with `WITH_MAPSERVER`;
-- the other modules model the build of Makefile.servers, which does not define it and which keeps
-- the assertions, but with `-DNODP`, the line that Makefile.servers has commented out. Without
-- `NODP`, inserver.c calls `print_inode` (test.c) after each request and each restored inode; that
-- takes the read lock `rwlock` of the inode, gives it back, and asserts `check_extent` for each
-- extent, the number of extents and that none ends behind the size. None of this is in the model.
--
-- Files:
-- Base and its children: names of the libraries, Boolean tests, lists, lists of distinct
--   pointers (`insert_extent_list` and the `prev`, `next` links), machine words.
-- Codes: the enumerations of inserver.h, and the requests incont.c sends to a DOS.
-- Tree: the balanced tree of extents (incont.h `struct extent`; incont.c `rebalance`, and the
--   tree halves of `replace_extent`, `replace` and `remove_extent`).
--   Tree/Order, Tree/Balance, Tree/Locate, Tree/Ops: its sequence, its depths, its places, its
--   operations.
-- Inode: `struct inode`, `struct extent`, `struct dobject` and the flags of incont.h.
--   Inode/Extents: `create_extent`, `release_extent`, `replace_extent`, `remove_extent`,
--   `acquire_dobject`, `remove_dobject`, `read_dobject`, `get_inode_dobj`, `check_dobject`.
--   Inode/Owned, Inode/Released: which extents stand in `refs` of which data object, and the
--   counters (`IsOwned`).
-- Layout: `replace`, `pado_write`, `pado_truncate`, `pado_clone`, `find_start_extent`.
--   Layout/Sorted, Layout/Valid, Layout/Find: extents in order, and what `check_extent` asserts.
--   Layout/Same, Layout/Linked, Layout/Cleared, Layout/Stages, Layout/Woven, Layout/Writes: the
--   chain and the tree through the loops of `replace`, `replace` as a whole, and its callers.
--   Layout/Updates, Layout/Trim: lists of extents that change elsewhere, and their cut at an end.
--   Layout/Spots, Layout/Content: which position is kept where (`spot`), and a layout that keeps
--   each position where a function says (`Holds`).
--   Layout/Descent, Layout/Put, Layout/Cuts, Layout/Aimed, Layout/Merged, Layout/Settled: the
--   stages of `replace` on that.
--   Layout/Replaced, Layout/Kept: `replace` as a whole, `pado_write` and `pado_truncate`.
--   Layout/Names: what `replace` leaves of the data objects.
--   Layout/Places: the same by host and object (`Serves`).
--   Layout/Acquired, Layout/Cloned, Layout/Taken: `pado_clone` on that.
--   Layout/Checked, Layout/Swept, Layout/Ahead, Layout/Joined, Layout/Running: the operations and
--   stages of `replace` on references, counters and assertions.
--   Layout/Counted, Layout/CloneCounts: the same for its callers.
--   Layout/Without, Layout/Emptied, Layout/Removed: `remove_dobject`.
--   Layout/Sound, Layout/Steady: an inode between two requests (`IsSound`), and each operation on
--   it.
-- Read: `pado_read`, `pado_getinode_meta`, `pado_getinode_all`.
--   Read/Fetch, Read/Holes, Read/Clone: where a position of a file is kept, by the layout and by
--   the answer.
--   Read/Rounds: the rounds of the loop.
--   Read/Served, Read/Copied: the answer to a clone by host and object, and its way into another
--   inode.
-- Container: `create_inode`, `acquire_inode`, `free_inode`, `release_inode`, `delete_inode`,
--   `stageout`, `stageout_all`, `do_backup` of incont.c and `do_restore` of inserver.c.
--   Container/Invariant: the numbers of the inode map.
--   Container/Restored, Container/Recovered: a backup and its restoration, for one inode and for
--   all.
--   Container/Drained: what `stageout` sends.
--   Container/Deleted: `release_inode` and `delete_inode`.
--   Container/Safe: the assertions of this module.
-- Worker: one request in `worker_thread` of inserver.c, with the lock it takes.
--   Worker/Flags, Worker/Places: the flags, and where the positions of a file are kept.
--   Worker/Sound, Worker/Safe: the assertions, in one request and in any number of them.
--   Worker/Answered: the locks, and that requests are answered.
-- Queue: `main` and the loop of `worker_thread` of inserver.c as steps of threads.
--   Queue/Fifo, Queue/Progress: the order of the jobs, and how long one waits.
-- Mapping: lpmapser.c, and `init_inode_container` and `create_inode_withms` of incont.c.
-- Tests: the operations and the theorems at concrete inputs.
--
-- State: a pointer is a number that is never used twice. An extent's `left`, `right` and `depth`
-- are the tree, its `parent` and `pivot` are the path to it (`PathUp`), its `prev` and `next` are
-- the list `chain`, and `prev_ref` and `next_ref` are the list `refs` of its data object. A hash
-- table is the list of its entries in the order of insertion, in which `HASH_ITER` visits them.
-- `halted` and `dead` say that an assertion has failed or `NULL` was accessed; a tree operation
-- gives `none` there. `held` says that a request ended with the lock of its inode in its hands.
-- The clock and the answers of the DOS are the record `Env`: `dos` is given the requests sent so
-- far and the new one, and answers a code, or none where no connection is made.
--
-- Fuel: `read_loop` has `2 * length + 2` turns for a chain of that length, since each turn either
-- goes on to the next extent or sends the hole before it; `clear_range` has one more than the
-- length of the chain and `remove_refs` the length of `refs`, since each turn removes or passes
-- one of them. Words wrap: `size_t` at 2 ^ 64, `uint32_t` at 2 ^ 32.
--
-- Not modelled: the kernel modules module/ and wrapfs/, the benchmarks bench/, the test clients
-- testlocal.c, testremote.c and the stand-in dos.c; uthash.h, which is another project's;
-- the options, sockets and messages of the two `main`, and the functions of test.c. A request's
-- arguments are given in full, memory does not run out, and `refcount` counts without bound. The
-- operations on an inode go on behind a failed assertion and note it in `halted`; the request is
-- then `aborted` and has no successor. That no assertion fails rests on what `Fits` of
-- Worker/Sound asks of a request: the code does not refuse a write of no bytes, a range that
-- wraps, or a clone whose segments are out of order. The list of segments that `pado_clone` reads
-- ends at the first one of host 0 and object 0, wherever it comes from. A backup whose count of
-- extents is not the number of those that follow leaves the reading of `do_restore` out of step,
-- and the model has no result there (`read_extents`).
pub mod Base
pub mod Codes
pub mod Tree
pub mod Inode
pub mod Layout
pub mod Read
pub mod Container
pub mod Worker
pub mod Mapping
pub mod Queue
mod Tests
