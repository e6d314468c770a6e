-- ===== src/Mem/RoundTrip.antt =====
-- Which addresses the two maps carry over and back.
use ymirc.Prelude.{ℕ, ◌<◌, ◌≡◌, ◌≢◌, Bool, true, false, arith}
use ymirc.Mem.{direct_map_size, virt2phys, phys2virt}

-- A physical address that the direct mapping covers comes back unchanged from `phys2virt` and then
-- `virt2phys`, before and after the mapping is rebuilt.
pub virt2phys-phys2virt :
    (reconstructed : Bool) (addr : ℕ)
    → addr < direct_map_size
    → virt2phys reconstructed (phys2virt reconstructed addr) ≡ addr
unfolding virt2phys phys2virt
virt2phys-phys2virt false addr h = omega arith
virt2phys-phys2virt true addr h = ground arith

-- The direct mapping takes no physical address to a null pointer.
pub phys2virt-ne-zero :
    (reconstructed : Bool) (addr : ℕ)
    → 0 < addr
    → addr < direct_map_size
    → phys2virt reconstructed addr ≢ 0
unfolding phys2virt
phys2virt-ne-zero false addr p h = omega arith
phys2virt-ne-zero true addr p h = omega arith
