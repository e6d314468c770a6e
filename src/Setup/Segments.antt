-- ===== src/Setup/Segments.antt =====
-- The segment attributes that `setup_vmcb_seg` puts together.
use ymirc.Prelude.{ℕ, ◌≡◌, refl, done}
use ymirc.Bits.{set_fields, trailing_zeros, ctz, masked, set_masked_bits}
use ymirc.Vcpu.{VmcbSeg, Vmcb}
use ymirc.Setup.{setup_vmcb_seg}

abbrev pub flat : ℕ → VmcbSeg → VmcbSeg
flat attrib s = record s { attr = attrib; limit = 0xFFFFFFFF }

-- Whatever the control block was, `setup_vmcb_seg` is defined and makes CS a flat 32-bit code
-- segment (present, readable, accessed, byte 0x9B, with 4 KiB granularity and 32-bit size, 0xC) and
-- the five others flat 32-bit writable data segments; bases, selectors and all else stay.
pub setup_vmcb_seg_lem :
    (b : Vmcb)
    → setup_vmcb_seg b
      ≡ done (record b {
        cs = flat 0xC9B b.cs;
        ds = flat 0xC93 b.ds;
        es = flat 0xC93 b.es;
        fs = flat 0xC93 b.fs;
        gs = flat 0xC93 b.gs;
        ss = flat 0xC93 b.ss;
      })
unfolding setup_vmcb_seg set_fields set_masked_bits ctz trailing_zeros masked
setup_vmcb_seg_lem b = refl
