-- ===== src/Pages/Direct.antt =====
-- The entries that `reconstruct` in ymirc/arch/x86/page.c makes, and the direct mapping.
use ymirc.Prelude.{
  ℕ, zero, suc, ◌+◌, ◌*◌, ◌%◌, ◌^◌, ◌≤◌, ◌<◌, ◌≡◌, ◌≢◌, refl, sym, ap, ◌∙◌, arith, Bool, true,
  false, Bool-cases, ◌==◌, inl, inr, some, u64, shl, done,
}
use ymirc.Bits.{tobit, set_fields, set_masked_bits, ctz, trailing_zeros, masked}
use ymirc.Mem.{virt2phys}
use ymirc.Mem.RoundTrip.{virt2phys-phys2virt}
use ymirc.Npt.{TableSource, Memory, allocate_table, write, with_words, entry_at, clear_entries}
use ymirc.Npt.Entries.{masked_phys}
use ymirc.Npt.Words.{clear_entries-inside, clear_entries-outside}
use ymirc.Npt.Tree.{frames, slot, offset-le}
use ymirc.Npt.Grow.{Supplies, slot-inj}
use ymirc.Npt.Ensure.{store_fields-some, page_address}
use ymirc.Pages.{kernel_fields, refer_to_table, refer_to_page, direct_entries, direct_map}
use ymirc.Pages.Copy.{Extends, allocate_table_cases}

-- An entry that is present, writable and closed to user mode, for a table.
abbrev pub kernel_table : ℕ → ℕ
kernel_table phys = 3 + phys

-- The same for a page, with the bit PS.
abbrev pub kernel_page : ℕ → ℕ
kernel_page phys = 0x83 + phys

table_fields :
    (phys : ℕ)
    → phys < 2 ^ 63
    → phys % 2 ^ 12 ≡ 0
    → set_fields (kernel_fields 0 phys) 0 ≡ some (kernel_table phys)
unfolding set_fields set_masked_bits ctz trailing_zeros masked tobit
table_fields phys word aligned = ap some (masked_phys 3 phys (omega arith) word aligned)

page_fields :
    (phys : ℕ)
    → phys < 2 ^ 63
    → phys % 2 ^ 12 ≡ 0
    → set_fields (kernel_fields 1 phys) 0 ≡ some (kernel_page phys)
unfolding set_fields set_masked_bits ctz trailing_zeros masked tobit
page_fields phys word aligned = ap some (masked_phys 0x83 phys (omega arith) word aligned)

pub entry_at-slot :
    (mapped : Bool) (f i : ℕ)
    → f < frames
    → i < 512
    → entry_at (slot mapped f 0) i ≡ slot mapped f i
entry_at-slot mapped f i hf hi = omega (arith, offset-le mapped)

pub virt2phys-slot :
    (mapped : Bool) (f : ℕ) → f < frames → virt2phys mapped (slot mapped f 0) ≡ f * 4096
virt2phys-slot mapped f small =
    ap (virt2phys mapped) (sym (page_address mapped f small))
    ∙ virt2phys-phys2virt mapped (f * 4096) (omega arith)

pub write-here :
    (mapped : Bool) (b k v : ℕ) (w : ℕ → ℕ) → write (slot mapped b k) v w (slot mapped b k) ≡ v
write-here mapped b k v w = ground arith

pub write-other :
    (mapped : Bool) (b k f i v : ℕ) (w : ℕ → ℕ)
    → k < 512
    → i < 512
    → (f ≡ b → i ≢ k)
    → write (slot mapped b k) v w (slot mapped f i) ≡ w (slot mapped f i)
write-other mapped b k f i v w hk hi apart =
    let other : (slot mapped f i == slot mapped b k) ≡ false =
      ground (arith, slot-inj mapped f i b k hi hk, apart) in
    rw other refl

module _ {S : Type 0} (mapped : Bool) where
  pub refer_to_table_lem :
      (a i g : ℕ) (m : Memory S)
      → a < frames
      → i < 512
      → g < frames
      → m.words (slot mapped a i) ≡ 0
      → refer_to_table mapped (entry_at (slot mapped a 0) i) (slot mapped g 0) m
        ≡ done (with_words (write (slot mapped a i) (kernel_table (g * 4096)) m.words) m)
  unfolding refer_to_table
  refer_to_table_lem a i g m ha hi hg vacant =
      rw (entry_at-slot mapped a i ha hi, virt2phys-slot mapped g hg)
        (store_fields-some (slot mapped a i) (kernel_fields 0 (g * 4096)) m (
          ap (set_fields (kernel_fields 0 (g * 4096))) vacant
          ∙ table_fields (g * 4096) (omega arith) (omega arith)))

  refer_to_page_lem :
      (b k : ℕ) (m : Memory S)
      → b < frames
      → k < 512
      → m.words (slot mapped b k) ≡ 0
      → refer_to_page (entry_at (slot mapped b 0) k) (u64 (shl 0 39 + shl k 30)) m
        ≡ done (with_words (write (slot mapped b k) (kernel_page (k * 2 ^ 30)) m.words) m)
  unfolding refer_to_page
  refer_to_page_lem b k m hb hk vacant =
      let phys : u64 (shl 0 39 + shl k 30) ≡ k * 2 ^ 30 = omega arith in
      rw (entry_at-slot mapped b k hb hk, phys)
        (store_fields-some (slot mapped b k) (kernel_fields 1 (k * 2 ^ 30)) m (
          ap (set_fields (kernel_fields 1 (k * 2 ^ 30))) vacant
          ∙ page_fields (k * 2 ^ 30) (omega arith) (omega arith)))

  abbrev stored : ℕ → ℕ → Memory S → Memory S
  stored b k m = with_words (write (slot mapped b k) (kernel_page (k * 2 ^ 30)) m.words) m

  -- Memory after the loop over the entries from `k` on.
  pub record Filled (b k : ℕ) (m m' : Memory S) : Type 0 where
    pub pages : m'.pages ≡ m.pages
    pub filled : (i : ℕ) → k ≤ i → i < 512 → m'.words (slot mapped b i) ≡ kernel_page (i * 2 ^ 30)
    pub same :
        (f i : ℕ)
        → i < 512
        → (f ≡ b → i < k)
        → m'.words (slot mapped f i) ≡ m.words (slot mapped f i)

  pub direct_entries_lem :
      (left b k : ℕ) (m : Memory S)
      → b < frames
      → k + left ≡ 512
      → ((i : ℕ) → k ≤ i → i < 512 → m.words (slot mapped b i) ≡ 0)
      → (m' : Memory S) × (direct_entries left k 0 (slot mapped b 0) m ≡ done m') × Filled b k m m'
  unfolding direct_entries
  direct_entries_lem zero b k m hb h vacant = (
    m,
    refl,
    record { pages = refl; filled = λ i low high. absurd (omega arith); same = λ f i hi out. refl },
  )
  direct_entries_lem (suc left) b k m hb h vacant =
      let (m₂, e, f) =
        direct_entries_lem left b (k + 1) (stored b k m) hb (omega arith) (λ i low high.
          write-other mapped b k b i _ m.words (omega arith) high (λ _. omega arith)
          ∙ vacant i (omega arith) high) in
      (
        m₂,
        rw (refer_to_page_lem b k m hb (omega arith) (vacant k (omega arith) (omega arith))) e,
        record {
          pages = f.pages;
          filled = λ i low high. elim (Bool-cases (i == k)) [
            | inl here ↦
                let at : i ≡ k = ground arith in
                rw at
                  (f.same b k (omega arith) (λ _. omega arith) ∙ write-here mapped b k _ m.words)
            | inr later ↦ f.filled i (ground arith) high
          ];
          same = λ g i hi out.
              f.same g i hi (λ e. omega (arith, out e))
              ∙ write-other mapped b k g i _ m.words (omega arith) hi (λ e. omega (arith, out e));
        },
      )

module _ {S : Type 0} (mapped : Bool) (pa : TableSource S) (laws : Supplies mapped pa) where
  -- The table in frame `a` leads to the table in frame `b`, which maps 512 GiB, and to no other.
  pub record Direct (a b : ℕ) (m m' : Memory S) : Type 0 where
    pub extends : Extends mapped pa laws m m'
    pub a_small : a < frames
    pub b_small : b < frames
    pub a_fresh : laws.used m.pages a ≡ false
    pub a_taken : laws.used m'.pages a ≡ true
    pub b_taken : laws.used m'.pages b ≡ true
    pub apart : b ≢ a
    pub others : (i : ℕ) → i < 512 → i ≢ 273 → m'.words (slot mapped a i) ≡ 0
    pub entry : m'.words (slot mapped a 273) ≡ kernel_table (b * 4096)
    pub filled : (i : ℕ) → i < 512 → m'.words (slot mapped b i) ≡ kernel_page (i * 2 ^ 30)
    pub count : laws.free m.pages ≤ laws.free m'.pages + 2

  -- A table with cleared entries in a frame that was not in use.
  record New (f : ℕ) (m m' : Memory S) : Type 0 where
    extends : Extends mapped pa laws m m'
    small : f < frames
    fresh : laws.used m.pages f ≡ false
    taken : laws.used m'.pages f ≡ true
    empty : (i : ℕ) → i < 512 → m'.words (slot mapped f i) ≡ 0
    count : laws.free m.pages ≤ laws.free m'.pages + 1

  abbrev cleared : ℕ → Memory S → S → Memory S
  cleared f m s' =
      with_words (clear_entries 512 (slot mapped f 0) m.words) (record m { pages = s' })

  allocated_table :
      (m : Memory S)
      → laws.IsGood m.pages
      → 1 ≤ laws.free m.pages
      → (f : ℕ) × (m' : Memory S) × (allocate_table pa m ≡ done (slot mapped f 0, m')) × New f m m'
  allocated_table m good enough = elim (allocate_table_cases mapped pa laws m good) [
    | inl (e, none_free) ↦ absurd (omega (arith, none_free))
    | inr (f, s', e, new, good', count) ↦ (
      f,
      cleared f m s',
      e,
      record {
        extends = record {
          good = good';
          kept = new.kept;
          same = λ g i used hi.
              let other : g ≢ f = λ e. ground (arith, new.fresh, used, e) in
              clear_entries-outside 512 (slot mapped f 0) (slot mapped g i) m.words
                (λ k lt e. other ((slot-inj mapped g i f k hi lt (e ∙ omega arith)).0));
        };
        small = new.small;
        fresh = new.fresh;
        taken = new.taken;
        empty = λ i hi.
            ap (clear_entries 512 (slot mapped f 0) m.words) (omega arith)
            ∙ clear_entries-inside 512 (slot mapped f 0) i m.words hi;
        count = count;
      },
    )
  ]

  abbrev linked : ℕ → ℕ → Memory S → Memory S
  linked a b m = with_words (write (slot mapped a 273) (kernel_table (b * 4096)) m.words) m

  module _ (a b : ℕ) (m m₁ m₂ m₃ : Memory S) (top : New a m m₁) (low : New b m₁ m₂)
      (f : Filled mapped b 0 m₂ m₃) where
    apart : b ≢ a
    apart e = ground (arith, low.fresh, top.taken, e)

    no_other : (i : ℕ) → i < 512 → m₃.words (slot mapped a i) ≡ 0
    no_other i hi =
        f.same a i hi (λ e. absurd (apart (sym e)))
        ∙ low.extends.same a i top.taken hi
        ∙ top.empty i hi

    linked-Direct : Direct a b m (linked a b m₃)
    linked-Direct = record {
      extends = record {
        good = rw f.pages low.extends.good;
        kept = λ g used. rw f.pages (low.extends.kept g (top.extends.kept g used));
        same = λ g i used hi.
            let ga : g ≢ a = λ e. ground (arith, top.fresh, used, e) in
            let gb : g ≢ b = λ e. ground (arith, low.fresh, top.extends.kept g used, e) in
            write-other mapped a 273 g i _ m₃.words (omega arith) hi (λ e. absurd (ga e))
            ∙ f.same g i hi (λ e. absurd (gb e))
            ∙ low.extends.same g i (top.extends.kept g used) hi
            ∙ top.extends.same g i used hi;
      };
      a_small = top.small;
      b_small = low.small;
      a_fresh = top.fresh;
      a_taken = rw f.pages (low.extends.kept a top.taken);
      b_taken = rw f.pages low.taken;
      apart = apart;
      others = λ i hi ne.
          write-other mapped a 273 a i _ m₃.words (omega arith) hi (λ _. ne) ∙ no_other i hi;
      entry = write-here mapped a 273 _ m₃.words;
      filled = λ i hi.
          write-other mapped a 273 b i _ m₃.words (omega arith) hi (λ e. absurd (apart e))
          ∙ f.filled i (omega arith) hi;
      count = rw f.pages (omega (arith, top.count, low.count));
    }

  pub direct_map_lem :
      (m : Memory S)
      → laws.IsGood m.pages
      → 2 ≤ laws.free m.pages
      → (a b : ℕ) × (m₁ : Memory S) × (m₂ : Memory S) × (allocate_table pa m
          ≡ done (slot mapped a 0, m₁))
        × (direct_map mapped pa 1 0 (slot mapped a 0) m₁ ≡ done m₂)
        × Direct a b m m₂
  unfolding direct_map
  direct_map_lem m good enough =
      let (a, m₁, e, top) = allocated_table m good (omega arith) in
      let (b, m₂, e', low) = allocated_table m₁ top.extends.good (omega (arith, top.count)) in
      let (m₃, e'', f) =
        direct_entries_lem mapped 512 b 0 m₂ low.small refl (λ i _ hi. low.empty i hi) in
      let empty : m₃.words (slot mapped a 273) ≡ 0 =
        no_other a b m m₁ m₂ m₃ top low f 273 (omega arith) in
      (
        a,
        b,
        m₁,
        linked a b m₃,
        e,
        rw (e', e'', refer_to_table_lem mapped a 273 b m₃ top.small (omega arith) low.small empty)
            refl,
        linked-Direct a b m m₁ m₂ m₃ top low f,
      )
