-- ===== src/Loader.antt =====
-- surtrc/boot.c: what the loader computes from the program headers of the kernel.
pub mod Tables
use ymirc.Prelude.{
  ℕ, ◌+◌, ◌-◌, ◌^◌, ◌<◌, ◌≡◌, refl, ◌∙◌, arith, Bool, Bool-cases, inl, inr, not, ◌==◌, ◌&&◌, ◌||◌,
  ltb, if◌then◌else◌, List, [], ◌∷◌, u64,
}

-- `Elf64_Phdr`, as far as it is read; of the type and of the flags what is tested.
pub record ProgramHeader : Type 0 where
  pub is_load : Bool
  pub is_executable : Bool
  pub is_writable : Bool
  pub p_vaddr : ℕ
  pub p_paddr : ℕ
  pub p_memsz : ℕ

pub record MemoryRange : Type 0 where
  pub start_virt : ℕ
  pub start_phys : ℕ
  pub end_phys : ℕ

-- The segments that are not passed over.
abbrev pub is_loaded : ProgramHeader → Bool
is_loaded ph = not (not ph.is_load || ph.p_memsz == 0)

abbrev pub segment_end : ProgramHeader → ℕ
segment_end ph = u64 (ph.p_paddr + ph.p_memsz)

abbrev pub widen : ProgramHeader → MemoryRange → MemoryRange
widen ph r = record {
  start_virt = if ltb ph.p_vaddr r.start_virt then ph.p_vaddr else r.start_virt;
  start_phys = if ltb ph.p_paddr r.start_phys then ph.p_paddr else r.start_phys;
  end_phys = if ltb r.end_phys (segment_end ph) then segment_end ph else r.end_phys;
}

-- The loop over the headers.
unfoldable pub widen_all : List ProgramHeader → MemoryRange → MemoryRange
widen_all [] r = r
widen_all (ph ∷ rest) r = widen_all rest (if is_loaded ph then widen ph r else r)

unfoldable pub compute_kernel_memory_range : List ProgramHeader → MemoryRange
compute_kernel_memory_range phdr =
    widen_all phdr (record { start_virt = 2 ^ 64 - 1; start_phys = 2 ^ 64 - 1; end_phys = 0 })

pub data PageAttribute : Type 0 where
  read_only read_write executable : PageAttribute

unfoldable pub read_p_flags : ProgramHeader → PageAttribute
read_p_flags ph =
    if ph.is_executable then executable else if ph.is_writable then read_write else read_only

-- The least and the greatest value among the loaded segments.
unfoldable pub least : (ProgramHeader → ℕ) → List ProgramHeader → ℕ
least value [] = 2 ^ 64 - 1
least value (ph ∷ rest) =
    if is_loaded ph && ltb (value ph) (least value rest) then value ph else least value rest

unfoldable pub greatest : (ProgramHeader → ℕ) → List ProgramHeader → ℕ
greatest value [] = 0
greatest value (ph ∷ rest) =
    if is_loaded ph && ltb (greatest value rest) (value ph) then value ph else greatest value rest

abbrev pub smaller : ℕ → ℕ → ℕ
smaller a b = if ltb b a then b else a

abbrev pub larger : ℕ → ℕ → ℕ
larger a b = if ltb a b then b else a

start_virt-least :
    (phdr : List ProgramHeader) (r : MemoryRange)
    → r.start_virt < 2 ^ 64
    → (widen_all phdr r).start_virt ≡ smaller r.start_virt (least (λ ph. ph.p_vaddr) phdr)
unfolding widen_all least
start_virt-least [] r h = ground arith
start_virt-least (ph ∷ rest) r h = elim (Bool-cases (is_loaded ph)) [
  | inl on ↦ rw (widen_all, on) (start_virt-least rest (widen ph r) (ground arith) ∙ ground arith)
  | inr off ↦ rw (widen_all, off) (start_virt-least rest r h)
]

start_phys-least :
    (phdr : List ProgramHeader) (r : MemoryRange)
    → r.start_phys < 2 ^ 64
    → (widen_all phdr r).start_phys ≡ smaller r.start_phys (least (λ ph. ph.p_paddr) phdr)
unfolding widen_all least
start_phys-least [] r h = ground arith
start_phys-least (ph ∷ rest) r h = elim (Bool-cases (is_loaded ph)) [
  | inl on ↦ rw (widen_all, on) (start_phys-least rest (widen ph r) (ground arith) ∙ ground arith)
  | inr off ↦ rw (widen_all, off) (start_phys-least rest r h)
]

end_phys-greatest :
    (phdr : List ProgramHeader) (r : MemoryRange)
    → (widen_all phdr r).end_phys ≡ larger r.end_phys (greatest segment_end phdr)
unfolding widen_all greatest
end_phys-greatest [] r = ground arith
end_phys-greatest (ph ∷ rest) r = elim (Bool-cases (is_loaded ph)) [
  | inl on ↦ rw (widen_all, on) (end_phys-greatest rest (widen ph r) ∙ ground arith)
  | inr off ↦ rw (widen_all, off) (end_phys-greatest rest r)
]

least-le : (value : ProgramHeader → ℕ) (phdr : List ProgramHeader) → least value phdr < 2 ^ 64
unfolding least
least-le value [] = omega arith
least-le value (ph ∷ rest) = ground (arith, least-le value rest)

MemoryRange-eq :
    (r : MemoryRange) {a b c : ℕ}
    → r.start_virt ≡ a
    → r.start_phys ≡ b
    → r.end_phys ≡ c
    → r ≡ record { start_virt = a; start_phys = b; end_phys = c }
MemoryRange-eq r ea eb ec = rw (← ea, ← eb, ← ec) refl

-- `compute_kernel_memory_range` returns the least virtual and the least physical address of the
-- segments that are loaded and not empty, and the greatest of their ends as 64-bit words; where
-- there is none, 2^64 - 1 twice and 0.
pub compute_kernel_memory_range_lem :
    (phdr : List ProgramHeader)
    → compute_kernel_memory_range phdr ≡ record {
      start_virt = least (λ ph. ph.p_vaddr) phdr;
      start_phys = least (λ ph. ph.p_paddr) phdr;
      end_phys = greatest segment_end phdr;
    }
unfolding compute_kernel_memory_range
compute_kernel_memory_range_lem phdr =
    MemoryRange-eq (widen_all phdr first)
      (start_virt-least phdr first (omega arith) ∙ ground (arith, least-le (λ ph. ph.p_vaddr) phdr))
      (start_phys-least phdr first (omega arith) ∙ ground (arith, least-le (λ ph. ph.p_paddr) phdr))
      (end_phys-greatest phdr first ∙ ground arith)
  where
    first : MemoryRange
    first = record { start_virt = 2 ^ 64 - 1; start_phys = 2 ^ 64 - 1; end_phys = 0 }
