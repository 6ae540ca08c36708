-- ===== src/Mpi.antt =====
-- The MPI implementation of DART (dart-impl/mpi).
pub mod Transtable
pub mod Teamlist
pub mod Onesided
pub mod Completion
pub mod Globmem
pub mod TeamGroup
pub mod Lock
pub mod Buddy
