-- ===== src/Shmem.antt =====
-- The shared-memory implementation of DART (dart-impl/shmem).
pub mod Membucket
pub mod Group
pub mod Barrier
pub mod Syncarea
