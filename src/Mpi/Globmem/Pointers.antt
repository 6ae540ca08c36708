-- ===== src/Mpi/Globmem/Pointers.antt =====
-- Addresses of global pointers: dart_globmem.c.
use coronas.Prelude.Int.{eqb_ℤ_refl}
use coronas.Types.{Gptr}
use coronas.Mpi.Transtable.{Answer, value, invalid, undefined}
use coronas.Mpi.Globmem.{
  address_space, from_base, address_offset, at_offset, dart_gptr_getaddr, offset_address,
  dart_gptr_setaddr, self_base, Memory,
}
use coronas.Prelude.{ℕ, ◌<◌, ◌≡◌, refl, sym, ◌∙◌, some, arith}

offset_address-address_offset :
    (base addr : ℕ)
    → base < address_space
    → addr < address_space
    → offset_address base (address_offset base addr) ≡ addr
unfolding offset_address address_offset address_space
offset_address-address_offset base addr h k = ground (arith, h, k)

address_offset-offset_address :
    (base offset : ℕ)
    → base < address_space
    → offset < address_space
    → address_offset base (offset_address base offset) ≡ offset
unfolding offset_address address_offset address_space
address_offset-offset_address base offset h k = ground (arith, h, k)

-- The bases that a pointer can refer to are addresses.
abbrev pub HasBase : Memory → Gptr → Type 0
HasBase m gptr = (base : ℕ) → self_base m gptr.segid ≡ value base → base < address_space

set_and_get :
    (gptr g : Gptr) (addr : ℕ) (a : Answer ℕ)
    → addr < address_space
    → ((base : ℕ) → a ≡ value base → base < address_space)
    → from_base gptr addr a ≡ value g
    → (at_offset g.offset a ≡ value (some addr)) × (g.segid ≡ gptr.segid)
unfolding at_offset from_base
set_and_get gptr g addr (value base) k h e =
    (ground (arith, e, offset_address-address_offset base addr (h base refl) k), ground (arith, e))
set_and_get gptr g addr invalid k h e = absurd (cc)
set_and_get gptr g addr undefined k h e = absurd (cc)

get_and_set :
    (gptr : Gptr) (addr : ℕ) (a : Answer ℕ)
    → gptr.offset < address_space
    → ((base : ℕ) → a ≡ value base → base < address_space)
    → at_offset gptr.offset a ≡ value (some addr)
    → from_base gptr addr a ≡ value gptr
unfolding at_offset from_base
get_and_set gptr addr (value base) k h e =
    ground (arith, e, address_offset-offset_address base gptr.offset (h base refl) k)
get_and_set gptr addr invalid k h e = absurd (cc)
get_and_set gptr addr undefined k h e = absurd (cc)

getaddr_self :
    (m : Memory) (gptr : Gptr)
    → dart_gptr_getaddr gptr.unitid m gptr ≡ at_offset gptr.offset (self_base m gptr.segid)
unfolding dart_gptr_getaddr
getaddr_self m gptr = rw (eqb_ℤ_refl gptr.unitid) refl

-- On the unit that a pointer names and for addresses of 64 bits, the address that dart_gptr_setaddr
-- has set is the one that dart_gptr_getaddr answers.
pub getaddr-setaddr :
    (m : Memory) (gptr g : Gptr) (addr : ℕ)
    → HasBase m gptr
    → addr < address_space
    → dart_gptr_setaddr m gptr addr ≡ value g
    → dart_gptr_getaddr g.unitid m g ≡ value (some addr)
unfolding dart_gptr_setaddr
getaddr-setaddr m gptr g addr h k e =
    let (there, same) = set_and_get gptr g addr (self_base m gptr.segid) k h e in
    getaddr_self m g ∙ (rw same there)

-- To set the address that a pointer with an offset of 64 bits has on its unit leaves it as it was.
pub setaddr-getaddr :
    (m : Memory) (gptr : Gptr) (addr : ℕ)
    → HasBase m gptr
    → gptr.offset < address_space
    → dart_gptr_getaddr gptr.unitid m gptr ≡ value (some addr)
    → dart_gptr_setaddr m gptr addr ≡ value gptr
unfolding dart_gptr_setaddr
setaddr-getaddr m gptr addr h o e =
    get_and_set gptr addr (self_base m gptr.segid) o h (sym (getaddr_self m gptr) ∙ e)
