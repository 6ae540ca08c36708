-- ===== src/Lib.antt =====
-- DASH: the DART runtime, the C code under dart-impl that gives the C++ template library its
-- units, teams, global memory and communication, and of the template library (dash/include/dash)
-- the patterns that distribute the elements of an array to the units. There are two
-- implementations of the one interface of the runtime (dart-if/v3.2/include/dash/dart/if).
-- dart-impl/shmem runs the units as processes of one machine that share a memory pool.
-- dart-impl/mpi runs them as the ranks of an MPI program, built here with shared windows
-- (DART_MPI_DISABLE_SHARED_WINDOWS is not set).
--
-- Types models the types that both share. Prelude holds the conditional, the Boolean tests,
-- lists with their positions, and signed integers over the native numbers.
--
-- Shmem models parts of dart-impl/shmem/src. Shmem.Membucket is the allocator of
-- dart_membucket.c, with its lists of free and of allocated chunks: what its loops answer is a
-- cursor into a list, and the functions around them have the names of the source. Its children
-- count in how many chunks each byte of the pool lies (Cover, Partition), speak of the order and
-- the merging of the free list (Coalesced), of the invariant of a bucket (Valid), and of calls
-- and sequences of calls (Alloc, Free, History). Shmem.Group is dart_groups_impl.c: a set of
-- units as the arrays g2l and l2g of 256 cells, which Rebuild, Marks, Members and Split study.
-- Shmem.Barrier is the barrier of shmem_barriers_sysv.c, as a step relation of its processes
-- with or without wakeups that no broadcast caused; Invariant counts the processes of a round.
-- Shmem.Syncarea is the area that the processes share: the slots of teams of the same file and
-- the slots of locks of dart_locks.c, each function one step under the mutex of the area; Slots
-- has the lemmas on the tables, Teams the invariant of the team slots.
--
-- Mpi models parts of dart-impl/mpi/src. Mpi.Transtable is dart_translation.c, the table from
-- segment ids to windows and addresses; Mpi.Teamlist is dart_team_private.c, the free team
-- indices and the sorted array of teams, with its binary search. Mpi.TeamGroup is the groups of
-- dart_team_group.c, which are MPI groups kept in order. Mpi.Globmem is dart_globmem.c, which
-- uses the two tables: global pointers, local allocation over the buddy allocator, and the
-- collective allocation, registration and release of segments. Mpi.Onesided is the first part of
-- dart_communication.c, which resolves a global pointer to memory of the node or to a window, a
-- rank and a displacement by the table of segments; a run is the list of the memcpy and MPI
-- calls that it makes. Mpi.Completion is the part of that file that waits for handles and tests
-- them. Mpi.Buddy is the buddy allocator of dart_mem.c: the array of nodes as a function, the
-- loops of allocation and release by the rounds of the source, and the trees that the array
-- holds (Tree, Tidy), which the children Nodes to Release relate to the array round by round.
-- Mpi.Lock is the queue lock of dart_synchronization.c, as a step relation: a state has the
-- shared cells and the place of every unit in the functions, and a step is one access to shared
-- memory or one message of any unit.
--
-- Dash models parts of dash/include/dash. Dash.CartesianSpace and Dash.CartesianIndexSpace are
-- the spaces of Cartesian.h, the second with the way between points and linear indices by rows
-- (RowMajor) and by columns (ColMajor); its child Words has the products and the sum with the
-- wrap-around of SizeType, for any number of bits, and Exact relates the two. Dash.Math is the
-- factorisation of internal/Math.h, whose children study the product of the factors (Factors)
-- and that they are prime (Primes), and Dash.TeamSpec, over both, the arrangement of the units
-- of a team (Cartesian.h, with DistributionSpec::is_tiled of Dimensional.h). Dash.Distribution
-- is Distribution.h, Dash.BlockPattern1D the pattern of one dimension of BlockPattern1D.h: the
-- class with the methods' names, its members in two records, those that the constructor sets
-- first and the others. Dash.Division has the arithmetic of blocks; Dash.TilePattern1D is
-- TilePattern1D.h, over the same members. Dash.BlockPattern1D's children study the number of
-- elements of a unit (Extent, Totals), the blocks of local indices (Coords, Bounds), the way
-- between global and local indices (RoundTrip), the constructor (Construction, Traps) and the
-- views of blocks (Views). Dash.BlockPattern is the pattern of any number of dimensions of
-- BlockPattern.h: in each dimension it has the members of a one-dimensional pattern, and the
-- units and the memory are index spaces. Its children take the one-dimensional theorems to a
-- dimension (Dims), to all of them (Loops), and to points and linear indices (RoundTrip, Linear)
-- of what the constructor builds (Construction). Dash.CsrPattern is the pattern of one dimension
-- of CSRPattern.h, where each unit has one block of a size of its own; Owners says which unit an
-- element belongs to.
--
-- State is passed explicitly: a function takes the part of the global variables that it uses and
-- answers what it leaves. Where an operation can fail, its answer names the code of the source;
-- where the source reads out of an array or through NULL, the answer is one of its own
-- (undefined, out_of_bounds, none).
--
-- Integers: sizes, offsets and addresses are natural numbers; sums of an address and an offset
-- are taken modulo 2^64 where the source has uint64_t (Mpi), the ids of segments are int16_t
-- with their wrap-around, and the counter of team ids of dart-impl/shmem is an int32_t. Unit
-- ids, team ids and segment ids of the runtime are signed; the sizes and indices of a pattern
-- are natural numbers, which are those of the source where the product of the extents fits the
-- index type (Dash.CartesianIndexSpace.Words). Loops are recursion on a list or on a counter.
-- Three kinds of loops are on fuel. The binary search of Mpi.Teamlist gets as many rounds as the
-- array has cells: each round but the last shortens the interval, so they suffice. The search of
-- Mpi.Buddy gets three rounds for each unit of the pool, since it enters and leaves each node of
-- the tree at most once. The loops of Dash.Math get one round more than the number that they
-- divide: it gets smaller in each round that divides, and the odd numbers that are tried stay
-- below it.
--
-- MPI is a parameter: records of functions (Mpi.Onesided.Mpi, Mpi.Completion.Requests,
-- Mpi.Globmem.Windows, Mpi.TeamGroup.Groups) say what its calls answer, and the theorems that
-- need more than that name it as a hypothesis (that calls succeed, that a wait leaves
-- MPI_REQUEST_NULL in place of a request, in which order a union has its members, or that
-- MPI_Group_incl of distinct units of the world has them in the order given).
--
-- Not modelled: the teams, memory areas, point-to-point messages, collective and one-sided
-- operations of dart-impl/shmem, and of its locks the calls of pthread mutexes; teams,
-- collective operations and start of dart-impl/mpi. Left out altogether: logging and printing,
-- the release of C memory that no answer depends on, the process launcher, and of the C++
-- library the containers, the algorithms, the tile patterns of more dimensions, the shifted tile
-- patterns and the CSR pattern of two dimensions. Of the block pattern of more dimensions the
-- functions that do not compile when they are used (block_at, block, local_block,
-- has_local_elements) are left out, and of the Cartesian spaces the assertions on arguments out
-- of range.
pub mod Prelude
pub mod Types
pub mod Shmem
pub mod Mpi
pub mod Dash
