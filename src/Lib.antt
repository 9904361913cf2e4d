-- ===== src/Lib.antt =====
-- DartSync. A tracker (src/server.c) keeps a table of the connected peers and a table of the
-- shared files, each with its edition and the peers that hold it. Each peer (src/client.c)
-- watches a directory, sends its own file table to the tracker when something changed, gets the
-- tracker's table back, and downloads from other peers, a piece from each, what it does not have
-- in the newest edition.
--
-- The parts and their files:
-- - PeerTable models utils/tracker_peer_table.c: peer_table_add, peer_table_update_timestamp,
--   peer_table_delete and peer_live_check on the list of entries behind the dummy node, with the
--   clock as an argument. PeerTable/Alive puts the events of the tracker's threads in sequence.
-- - FileTable models the tracker's operations on its file table, utils/file_monitor.c:
--   sync_from_client in FileTable/Sync (`prune` is its first loop, `merge_all` its second) and
--   delete_disconn_peer in FileTable/Disconnect. The array peers[200] of a record is a list with
--   a count beside it. An access outside the array, and a NULL table, give `none`.
--   FileTable/Sync/View has the abstract table, under each name an entry with its edition and
--   its holders, and `synced`, what a client's table does to an entry.
-- - Pieces models how download_file_multi_thread (utils/peer2peer.c) cuts a file into pieces,
--   with the casts to long and int.
-- - TempName models the names of temporary files: the sprintf format and parse_tmpt_file_name of
--   utils/peer2peer.c. `none` is undefined behaviour.
-- - Wire models a connection as the reading loops of download_handler see it, and the eight
--   bytes of an unsigned long.
-- - Compression models utils/compression.c over an unknown zlib: a record of compressBound,
--   compress and uncompress, with what zlib documents of them in `IsLawful`.
-- - Transfer models download_handler and upload_handler of utils/peer2peer.c on one connection.
-- - Tracker models src/server.c: the authorisation loop and the loop over the signals in
--   handshake_handler, peer_live_handler and broadcast_file_table, as whole steps on both
--   tables; Tracker/Reachable has the sequences of these steps.
-- - LocalSync models sync_with_server of utils/file_monitor.c. What it does to the watched
--   directory is a list of actions; what a scan then finds is a parameter.
-- - Scan models file_table_update and file_table_update_helper of utils/file_monitor.c on a tree
--   of directories.
-- - Assembly models download_file_multi_thread: the pass that looks for short temporary files,
--   peer_flag, the wait for a free peer, and the merge. Assembly/Download puts the threads of a
--   download before it, Assembly/Names has the names of its temporary files, as they are written
--   and read back, Assembly/Begin how it begins, Assembly/Mtime has set_mtime, and
--   Assembly/Resume a round of threads that work.
-- - TableMessage models send_file_table and recv_file_table of utils/file_monitor.c byte by
--   byte, with what recv_file_table does if the connection ends too early; TableMessage/Looping
--   has its loop over the bytes of a record, round by round.
-- - Session models what heartbeat and file_checker of src/client.c send on their connection, and
--   the loop of handshake_handler in src/server.c that reads it, byte by byte; Session/Asking
--   models get_authorization of src/server.c in the same way, and the whole of handshake_handler
--   on its connection.
-- - Client models the authorisation loop of src/client.c and the loops of heartbeat,
--   file_checker and tracker_handler. Client/Checker follows a table from the directory to the
--   tracker.
-- - Folders models safe_delete and safe_add_folder of utils/file_monitor.c over an unknown
--   shell; what is assumed of the system calls and the commands is `IsLawful` in Folders/Laws.
--   Folders/Mirror runs the actions of sync_with_server on a tree.
-- - Network models the functions of utils/network.c that make sockets, over unknown system
--   calls, and the search for a port in handshake_handler of src/server.c.
-- - Scheduling models the threads of a download while they run: the loops of
--   download_file_multi_thread and the threads of download_handler of utils/peer2peer.c, in any
--   order, on peer_flag and the temporary files. `none` is a step that overruns a buffer, or
--   that starts a thread for another file than that of the download.
-- - Greeting models what handshake_handler of src/server.c sends to a client before the tables,
--   and how main of src/client.c begins with it.
-- - Base has the shared helpers: tests, lists on native numbers, C strings, signed integers.
--
-- How they interact: a client scans its directory (Scan) and sends the table (TableMessage); the
-- tracker's handler (Tracker) takes it over (FileTable.Sync), sends its own to every peer, and
-- forgets a client that has gone (FileTable.Disconnect, PeerTable); each client then brings its
-- directory up to date (LocalSync). A client cuts a file that it needs into pieces (Pieces),
-- runs a download_handler for each (Transfer, over Wire and Compression), names the temporary
-- files so that it can resume (TempName), and puts them together (Assembly).
--
-- Bounds and fuel: numbers are natural numbers with the wrap-around of unsigned types and of
-- casts written out. The loops that read a connection run on fuel: each round reads a byte at
-- least, so recv_exact is given as many rounds as bytes are wanted, and download_handler one
-- more than the connection has bytes. upload_loop is given as many rounds as the piece has
-- bytes: each round that goes on has sent one at least. copy_loop is given one round more than
-- the temporary file has bytes: each round but the last reads one at least. The loops over the
-- messages of a connection, in Session and in Client, are given one round more than the
-- connection has bytes: a round that goes on has read one at least. The loop of recv_file_table
-- over a record is left, or waits, within as many rounds as bytes are missing, but on a closed
-- connection, where no number is enough.
--
-- Not modelled: the functions of utils/network.c that ask the system for an address; runs of the
-- tracker, which has no lock, in which a thread goes on between the statements of another one's
-- step; main of src/client.c and of src/server.c beyond what Greeting has of them: the prompts,
-- the choice between a name and an address, and the start and the end of the threads; the names
-- that the shell does not take as one word; and what is printed, although file_table_print and
-- recv_file_table look up the type and the peers of a record in arrays.
pub mod Base
pub mod PeerTable
pub mod FileTable
pub mod TempName
pub mod Pieces
pub mod Wire
pub mod Compression
pub mod Transfer
pub mod Tracker
pub mod LocalSync
pub mod Scan
pub mod Assembly
pub mod TableMessage
pub mod Session
pub mod Client
pub mod Folders
pub mod Network
pub mod Greeting
pub mod Scheduling
