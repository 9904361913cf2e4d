-- ===== src/Scheduling/Ending.antt =====
-- Why a download of `download_file_multi_thread` (utils/peer2peer.c) comes to an end: what its
-- threads leave is complete, and a rank that no step raises.
pub mod Complete
pub mod Ready
pub mod Passes
pub mod Sums
pub mod Rank
pub mod Descent
pub mod Threads
pub mod Main
pub mod Limit
