-- ===== src/Pages/Rebuilt.antt =====
-- The tables that `reconstruct` in ymirc/arch/x86/page.c leaves, as the processor reads them.
use ymirc.Prelude.{
  ℕ, zero, suc, ◌+◌, ◌*◌, ◌/◌, ◌%◌, ◌^◌, ◌≤◌, ◌<◌, ◌≡◌, inl, inr, refl, sym, ap, ◌∙◌, arith, Bool,
  true, false, Bool-cases, ◌==◌, if◌then◌else◌, bit_eq_div, none, some, done,
}
use ymirc.Bits.{isset}
use ymirc.Bits.Single.{isset-eq-bit}
use ymirc.Bits.Fields.{bit_and-field_mask}
use ymirc.Mem.{direct_map_base, phys2virt}
use ymirc.Npt.{TableSource, Memory}
use ymirc.Npt.Entries.{present-isset}
use ymirc.Npt.Walk.{ram, is_large, target, entry_of}
use ymirc.Npt.Tree.{frames, slot}
use ymirc.Npt.Grow.{Supplies}
use ymirc.Npt.Ensure.{page_address}
use ymirc.Npt.Translation.{entry_of-slot}
use ymirc.Pages.{reconstruct}
use ymirc.Pages.Holds.{is_last, lower_table, Holds, Holds-used, Holds-small}
use ymirc.Pages.Direct.{kernel_table, kernel_page, virt2phys-slot, direct_map_lem}
use ymirc.Pages.Kernel.{
  count_kernel, KernelTables, Cloned, absent, cloned, Progress, clone_kernel_lem,
}
use ymirc.Pages.Walk.{is_present, shift_at, walk, is_canonical, translate_kernel}

-- An entry leads the processor to the table that the code finds.
lower-target :
    (mapped : Bool) (e g : ℕ)
    → e < 2 ^ 64
    → g < frames
    → lower_table mapped e ≡ slot mapped g 0
    → target 12 e ≡ g * 4096
unfolding phys2virt
lower-target true e g word small at = omega (arith, bit_and-field_mask 12 51 e word)
lower-target false e g word small at = omega (arith, bit_and-field_mask 12 51 e word)

is_large-isset : (e : ℕ) → isset e 7 ≡ is_large e
is_large-isset e = isset-eq-bit e 7 (omega arith) ∙ ap (λ b. b == 1) (bit_eq_div e 7)

-- An entry that is present and not a page leads on.
not_last : (e : ℕ) → is_present e ≡ true → is_large e ≡ false → is_last e ≡ false
not_last e p l = rw (present-isset e, is_large-isset e, p, l) refl

module _ {S : Type 0} (mapped : Bool) (pa : TableSource S) (laws : Supplies mapped pa)
    (m m' : Memory S) (word : (x : ℕ) → m.words x < 2 ^ 64)
    (same : (f i : ℕ)
      → laws.used m.pages f ≡ true
      → i < 512
      → m'.words (slot mapped f i) ≡ m.words (slot mapped f i)) where
  -- Below a copy the processor finds what it found below the original.
  walk-copy :
      (levels t g va : ℕ)
      → Holds mapped pa laws levels m t
      → g < frames
      → ((i : ℕ) → i < 512 → m'.words (slot mapped g i) ≡ m.words (slot mapped t i))
      → walk levels (ram mapped m') (g * 4096) va ≡ walk levels (ram mapped m) (t * 4096) va
  unfolding walk
  walk-copy zero t g va (small, used) g_small copy =
      rw
        (
          entry_of-slot mapped m' va g 12 g_small,
          entry_of-slot mapped m va t 12 small,
          copy (va / 2 ^ 12 % 512) (omega arith),
        )
        refl
  walk-copy (suc levels) t g va (small, used, leads) g_small copy =
      let shift = shift_at (suc levels) in
      let i = va / 2 ^ shift % 512 in
      rw
        (
          entry_of-slot mapped m' va g shift g_small,
          entry_of-slot mapped m va t shift small,
          copy i (omega arith),
        )
        (by_entry (m.words (slot mapped t i)) (word (slot mapped t i)) (leads i (omega arith))
          (λ h holds.
            walk-copy levels h h va holds (Holds-small mapped pa laws levels m h holds)
              (λ k hk. same h k (Holds-used mapped pa laws levels m h holds) hk)))
    where
      by_entry :
          (e : ℕ)
          → e < 2 ^ 64
          → (is_last e ≡ false
              → (g : ℕ) × (lower_table mapped e ≡ slot mapped g 0)
                × Holds mapped pa laws levels m g)
          → ((h : ℕ)
              → Holds mapped pa laws levels m h
              → walk levels (ram mapped m') (h * 4096) va
                ≡ walk levels (ram mapped m) (h * 4096) va)
          → (if is_present e
              then if is_large e
                then some (target (shift_at (suc levels)) e + va % 2 ^ shift_at (suc levels))
                else walk levels (ram mapped m') (target 12 e) va
              else none)
            ≡ (if is_present e
                then if is_large e
                  then some (target (shift_at (suc levels)) e + va % 2 ^ shift_at (suc levels))
                  else walk levels (ram mapped m) (target 12 e) va
                else none)
      by_entry e small lower below = elim (Bool-cases (is_present e)) [
        | inr p ↦ rw p refl
        | inl p ↦ elim (Bool-cases (is_large e)) [
          | inl l ↦ rw (p, l) refl
          | inr l ↦
              let (h, at, holds) = lower (not_last e p l) in
              rw
                (
                  p,
                  l,
                  lower-target mapped e h small (Holds-small mapped pa laws levels m h holds) at,
                )
                (below h holds)
        ]
      ]

module _ {S : Type 0} (mapped : Bool) (pa : TableSource S) (laws : Supplies mapped pa)
    (m m' : Memory S) (r a b : ℕ) (p : Progress mapped pa laws m r a b 512 m')
    (a_small : a < frames) (b_small : b < frames) where
  top_entry :
      (n : Memory S) (f va : ℕ)
      → f < frames
      → entry_of (ram mapped n) (target 12 (f * 4096)) 39 va
        ≡ n.words (slot mapped f (va / 2 ^ 39 % 512))
  top_entry n f va small =
      let e : target 12 (f * 4096) ≡ f * 4096 = omega arith in
      rw e (entry_of-slot mapped n va f 39 small)

  kernel_table-present : (g : ℕ) → is_present (kernel_table (g * 4096)) ≡ true
  kernel_table-present g = let e : kernel_table (g * 4096) % 2 ≡ 1 = omega arith in rw e refl

  kernel_table-target : (g : ℕ) → g < frames → target 12 (kernel_table (g * 4096)) ≡ g * 4096
  kernel_table-target g small = omega arith

  direct-some :
      (x : ℕ)
      → x < 2 ^ 39
      → translate_kernel (ram mapped m') (a * 4096) (direct_map_base + x) ≡ some x
  unfolding translate_kernel walk
  direct-some x small =
      let canonical : is_canonical (direct_map_base + x) ≡ true = ground arith in
      let i4 : (direct_map_base + x) / 2 ^ 39 % 512 ≡ 273 = omega arith in
      let i3 : (direct_map_base + x) / 2 ^ 30 % 512 ≡ x / 2 ^ 30 = omega arith in
      let page = kernel_page (x / 2 ^ 30 * 2 ^ 30) in
      let present : is_present (kernel_page (x / 2 ^ 30 * 2 ^ 30)) ≡ true =
        page_present (x / 2 ^ 30) in
      let large : is_large (kernel_page (x / 2 ^ 30 * 2 ^ 30)) ≡ true = page_large (x / 2 ^ 30) in
      let sum : target 30 (kernel_page (x / 2 ^ 30 * 2 ^ 30)) + (direct_map_base + x) % 2 ^ 30 ≡ x =
        omega arith in
      rw
        (
          canonical,
          top_entry m' a (direct_map_base + x) a_small,
          i4,
          p.entry,
          kernel_table-present b,
          kernel_table-target b b_small,
          entry_of-slot mapped m' (direct_map_base + x) b 30 b_small,
          i3,
          p.filled (x / 2 ^ 30) (omega arith),
          present,
          large,
          sum,
        )
        refl
    where
      page_present : (i : ℕ) → is_present (kernel_page (i * 2 ^ 30)) ≡ true
      page_present i = let e : kernel_page (i * 2 ^ 30) % 2 ≡ 1 = omega arith in rw e refl

      page_large : (i : ℕ) → is_large (kernel_page (i * 2 ^ 30)) ≡ true
      page_large i = let e : kernel_page (i * 2 ^ 30) / 2 ^ 7 % 2 ≡ 1 = omega arith in rw e refl

  lower-none :
      (va : ℕ) → va < direct_map_base → translate_kernel (ram mapped m') (a * 4096) va ≡ none
  unfolding translate_kernel
  lower-none va h = elim (Bool-cases (is_canonical va)) [
    | inr e ↦ rw e refl
    | inl e ↦
        let index : va / 2 ^ 39 % 512 < 273 = ground arith in
        rw (e, top_entry m' a va a_small, p.low (va / 2 ^ 39 % 512) index) refl
  ]

  module _ (word : (x : ℕ) → m.words x < 2 ^ 64) (tables : KernelTables mapped pa laws r m) where
    by_clone :
        (i va : ℕ)
        → Cloned mapped pa laws m r a b i m'
        → (if is_present (m'.words (slot mapped a i))
            then walk 2 (ram mapped m') (target 12 (m'.words (slot mapped a i))) va
            else none)
          ≡ (if is_present (m.words (slot mapped r i))
              then walk 2 (ram mapped m) (target 12 (m.words (slot mapped r i))) va
              else none)
    by_clone i va (absent e z) =
        let gone : is_present (m.words (slot mapped r i)) ≡ false =
          sym (present-isset (m.words (slot mapped r i))) ∙ e in
        rw (z, gone) refl
    by_clone i va (cloned t g e at holds small ne used to same) =
        let there : is_present (m.words (slot mapped r i)) ≡ true =
          sym (present-isset (m.words (slot mapped r i))) ∙ e in
        rw
          (
            to,
            there,
            kernel_table-present g,
            kernel_table-target g small,
            lower-target mapped (m.words (slot mapped r i)) t (word (slot mapped r i))
                (Holds-small mapped pa laws 2 m t holds) at,
          )
          (walk-copy mapped pa laws m m' word p.extends.same 2 t g va holds small same)

    kernel-same :
        (va : ℕ)
        → direct_map_base + 2 ^ 39 ≤ va
        → va < 2 ^ 64
        → translate_kernel (ram mapped m') (a * 4096) va
          ≡ translate_kernel (ram mapped m) (r * 4096) va
    unfolding translate_kernel
    kernel-same va low high =
        let canonical : is_canonical va ≡ true = ground arith in
        rw (canonical, top_entry m' a va a_small, top_entry m r va tables.small)
          (by_clone (va / 2 ^ 39 % 512) va
            (p.clones (va / 2 ^ 39 % 512) (omega arith) (omega arith)))

module _ {S : Type 0} (mapped : Bool) (pa : TableSource S) (laws : Supplies mapped pa) where
  -- What `reconstruct` leaves: the new tables and the old memory.
  pub record Reconstructed (m : Memory S) (cr3 cr3' : ℕ) (m' : Memory S) : Type 0 where
    pub good : laws.IsGood m'.pages
    pub direct :
        (x : ℕ) → x < 2 ^ 39 → translate_kernel (ram mapped m') cr3' (direct_map_base + x) ≡ some x
    pub lower : (va : ℕ) → va < direct_map_base → translate_kernel (ram mapped m') cr3' va ≡ none
    pub kernel :
        (va : ℕ)
        → direct_map_base + 2 ^ 39 ≤ va
        → va < 2 ^ 64
        → translate_kernel (ram mapped m') cr3' va ≡ translate_kernel (ram mapped m) cr3 va
    pub same :
        (f i : ℕ)
        → laws.used m.pages f ≡ true
        → i < 512
        → m'.words (slot mapped f i) ≡ m.words (slot mapped f i)

  -- With an allocator in a good state, the old table of level 4 and all tables of the kernel's region
  -- in frames in use, 64-bit words in memory, and two more free pages than there are tables to clone,
  -- `reconstruct` returns, and sets the flag. From the new CR3 the processor translates the 512 GiB
  -- from the base of the direct mapping on to the addresses from 0 on, no address below, and every
  -- address above as it did from the old CR3. Every word in a frame that was in use is as it was,
  -- and the allocator is in a good state.
  pub reconstruct_lem :
      (r : ℕ) (m : Memory S)
      → laws.IsGood m.pages
      → KernelTables mapped pa laws r m
      → ((x : ℕ) → m.words x < 2 ^ 64)
      → 2 + count_kernel mapped m.words r 238 274 ≤ laws.free m.pages
      → (cr3' : ℕ) × (m' : Memory S) × (reconstruct mapped (some pa) (r * 4096) m
          ≡ done (cr3', true, m'))
        × Reconstructed m (r * 4096) cr3' m'
  unfolding reconstruct
  reconstruct_lem r m good tables word enough =
      let (a, b, m₁, m₂, e, e', d) = direct_map_lem mapped pa laws m good (omega (arith, enough)) in
      let start : Progress mapped pa laws m r a b 274 m₂ = record {
        extends = d.extends;
        a_taken = d.a_taken;
        b_taken = d.b_taken;
        low = λ i hi. d.others i (omega arith) (omega arith);
        entry = d.entry;
        filled = d.filled;
        clones = λ i low high. absurd (omega arith);
        rest = λ i low high. d.others i high (omega arith);
      } in
      let (m₃, e'', p) =
        clone_kernel_lem mapped pa laws m r a b d.a_small d.a_fresh d.apart tables 238 274 m₂
          (omega arith) refl start (omega (arith, enough, d.count)) in
      (
        a * 4096,
        m₃,
        rw (e, e', page_address mapped r tables.small, e'', virt2phys-slot mapped a d.a_small) refl,
        record {
          good = p.extends.good;
          direct = direct-some mapped pa laws m m₃ r a b p d.a_small d.b_small;
          lower = lower-none mapped pa laws m m₃ r a b p d.a_small d.b_small;
          kernel = kernel-same mapped pa laws m m₃ r a b p d.a_small d.b_small word tables;
          same = p.extends.same;
        },
      )
