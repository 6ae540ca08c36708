-- ===== src/Mpi/Globmem/Tests.antt =====
-- Runs of the global memory, and its theorems at inputs.
use coronas.Mpi.Buddy.{
  Buddy, Node, node_unused, node_used, node_split, store, dart_buddy_alloc, int_size, next_pow_of_2,
  is_pow_of_2, allocate, run, round, round_at, fit, descend, rise, index_offset, mark_parent,
  mark_loop,
}
use coronas.Mpi.Buddy.Tree.{Tree, unused, used, split, Holds}
use coronas.Mpi.Buddy.Grants.{Grants}
use coronas.Mpi.Globmem.Local.{
  dart_memalloc, local_answer, dart_memfree, local_gptr, memfree-memalloc,
}
use coronas.Prelude.{ℕ, ◌^◌, ◌<◌, ◌≡◌, refl, true, none, some, [], ◌∷◌, arith}
use coronas.Prelude.Int.{pos, negsuc}
use coronas.Types.{dart_ok, Gptr}
use coronas.Mpi.Transtable.{Info, value, dart_adapt_transtable_add}
use coronas.Mpi.Globmem.{
  Memory, Windows, address_space, dart_gptr_setaddr, dart_gptr_getaddr, succ_int16,
}
use coronas.Mpi.Globmem.Pointers.{HasBase}

-- The state after dart_init.
abbrev start : Memory
start = record { memid = pos 1; registermemid = negsuc 0; transtable = []; localalloc = 4096 }

abbrev windows : Windows
windows = record {
  sharedmem_comm = λ index. some 3;
  win_allocate_shared = λ nbytes comm. some (8192, 5);
  comm_rank = λ comm. 0;
  win_shared_query = λ win unit. 9000;
  sharedmemnode_size = λ index. 2;
  win_attach = λ index sub_mem nbytes. true;
  get_address = λ sub_mem. some sub_mem;
  allgather = λ index disp. disp ∷ disp ∷ [];
  first_unit = λ index. pos 0;
  win_free = λ win. true;
}

abbrev local : Gptr
local = record { unitid = pos 0; segid = pos 0; flags = 0; offset = 16 }

local-HasBase : HasBase start local
unfolding dart_gptr_setaddr address_space
local-HasBase base e = ground (arith, e)

set_local : dart_gptr_setaddr start local 4100 ≡ value (record local { offset = 4 })
unfolding dart_gptr_setaddr
set_local = refl

got_local : dart_gptr_getaddr (pos 0) start local ≡ value (some 4112)
unfolding dart_gptr_getaddr
got_local = refl

small : (n : ℕ) → n < 5000 → n < address_space
unfolding address_space
small n h = omega (arith, h)

abbrev segment : Info
segment = record {
  seg_id = pos 1;
  size = 64;
  disp = 8192 ∷ 8192 ∷ [];
  baseptr = none;
  selfbaseptr = 8192;
  win = 5;
}

abbrev with_segment : Memory
with_segment = record start { transtable = dart_adapt_transtable_add [] segment }

-- After 32767 allocations the id of the next one is negative.
id_wraps : succ_int16 (pos 32767) ≡ negsuc 32767
unfolding succ_int16
id_wraps = refl

-- A pool of eight bytes, the first four of them taken.
abbrev local_pool : Buddy
local_pool = record { level = 3; tree = store (store (λ i. node_unused) 1 node_used) 0 node_split }

abbrev pool_after : Buddy
pool_after = (dart_buddy_alloc local_pool 2).0

size_two : int_size 2 ≡ some (2 ^ 1)
unfolding int_size next_pow_of_2 is_pow_of_2
size_two = refl

local_granted :
    dart_memalloc (pos 1) local_pool 2 ≡ some (pool_after, dart_ok, local_gptr (pos 1) 4)
unfolding dart_memalloc local_answer dart_buddy_alloc int_size next_pow_of_2 is_pow_of_2 allocate
    run round round_at fit descend rise index_offset mark_parent mark_loop
local_granted = refl

memfree-memalloc_example :
    (local_gptr (pos 1) 4 ≡ local_gptr (pos 1) 4)
    × ((T : Tree) × Holds pool_after.tree 0 pool_after.level T
        × Grants 3 (2 ^ 1) (split used unused) T 4)
    × ((τ : ℕ → Node) × (dart_memfree pool_after (local_gptr (pos 1) 4)
          ≡ some (record local_pool { tree = τ }, dart_ok))
        × Holds τ 0 3 (split used unused))
memfree-memalloc_example =
    memfree-memalloc (pos 1) local_pool 2 2 1 (split used unused) pool_after (local_gptr (pos 1) 4)
      refl size_two (refl, refl, refl) (refl, refl, tt, tt) local_granted
