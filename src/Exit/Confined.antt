-- ===== src/Exit/Confined.antt =====
-- The guest from `vm_init` on: what no exit and nothing that the guest does can change.
use ymirc.Prelude.{
  ℕ, ◌≡◌, refl, sym, ap, subst, ◌∙◌, Bool, ◌==◌, if◌then◌else◌, ◌∷◌, List, panicked, Outcome, done,
  stop, ◌>>=◌, OnDone, OnDone-if, OnDone-cases, false, OnDone_elim,
}
use ymirc.Mem.{page_size, virt2phys}
use ymirc.PageAlloc.{PageAllocator, alloc, alloc_aligned_pages}
use ymirc.Ports.{History, set_msr}
use ymirc.Vcpu.{SvmVcpu, Vmcb, Machine}
use ymirc.Setup.{
  BitMap, control_fields, state_fields, iopm_contents, msrpm_contents, setup_vmcb_seg,
  setup_vmcb_msr, setup_vmcb_ioio, setup_vmcb, svm_vcpu_setup_guest_state, svm_vcpu_set_npt,
}
use ymirc.Setup.Segments.{setup_vmcb_seg_lem}
use ymirc.Setup.Create.{msr_vm_hsave_pa, svm_vcpu_new, svm_vcpu_virtualize, vm_init}
use ymirc.Exit.{Env}
use ymirc.Exit.Kept.{Walls, walls, Permitted, none_yet, Permitted-trans, Served, handle_exit-Served}
use ymirc.Exit.Loop.{
  Guest, asm_vmrun, svm_vcpu_loop, AllQuiet, svm_vcpu_loop-Reach, Reach, here, next, Round, round,
  vmrun-Served,
}

-- All intercepts on, nested paging on, and the given addresses.
abbrev pub closed : ℕ → ℕ → ℕ → ℕ → Walls
closed asid iopm msrpm n_cr3 = record {
  intercept_intr = 1;
  intercept_cpuid = 1;
  intercept_hlt = 1;
  intercept_ioio_prot = 1;
  intercept_msr_prot = 1;
  intercept_vmrun = 1;
  intercept_vmmcall = 1;
  iopm_base_pa = iopm;
  msrpm_base_pa = msrpm;
  guest_asid = asid;
  v_ign_tpr = 1;
  v_intr_masking = 1;
  np_enable = 1;
  n_cr3 = n_cr3;
}

abbrev SetUp : Type 0
SetUp = SvmVcpu × BitMap × BitMap × History × PageAllocator

-- A permission map of some pages, which the page allocator handed out, at its physical address.
abbrev pub MapAt : Bool → PageAllocator → ℕ → ℕ → PageAllocator → Type 0
MapAt mapped pa pages base pa' =
    (ptr : ℕ) × (alloc_aligned_pages mapped pa pages page_size ≡ done (ptr, pa'))
    × ((ptr == 0) ≡ false)
    × (base ≡ virt2phys mapped ptr)

-- The two maps are what the allocator handed out last, one after the other.
abbrev pub Placed : Bool → Vmcb → PageAllocator → Type 0
Placed mapped b pa =
    (pa₀ : PageAllocator) × (pa₁ : PageAllocator) × MapAt mapped pa₀ 2 b.msrpm_base_pa pa₁
    × MapAt mapped pa₁ 3 b.iopm_base_pa pa

-- What `vm_init` leaves of a virtual CPU with an ASID.
abbrev IsClosed : Bool → ℕ → SetUp → Type 0
IsClosed mapped asid (v, msrpm, iopm, h, pa) =
    (walls v.vmcb ≡ closed asid v.vmcb.iopm_base_pa v.vmcb.msrpm_base_pa v.vmcb.n_cr3)
    × (msrpm ≡ msrpm_contents)
    × (iopm ≡ iopm_contents)
    × Placed mapped v.vmcb pa

OnDone->>= :
    {A B : Type 0} (P : A → Type 0) (Q : B → Type 0) (x : Outcome A) (f : A → Outcome B)
    → OnDone P x
    → ((a : A) → P a → OnDone Q (f a))
    → OnDone Q (x >>= f)
OnDone->>= P Q (done a) f h k = k a h
OnDone->>= P Q (stop r) f h k = tt

always : {A : Type 0} (x : Outcome A) → OnDone (λ (a : A). Unit {0}) x
always (done a) = tt
always (stop r) = tt

itself : {A : Type 0} (x : Outcome A) → OnDone (λ (a : A). x ≡ done a) x
itself (done a) = refl
itself (stop r) = tt

setup_vmcb_msr_lem :
    (mapped : Bool) (pa : PageAllocator) (b : Vmcb)
    → OnDone
        (λ ((b', map, pa') : Vmcb × BitMap × PageAllocator).
          (walls b' ≡ record (walls b) { msrpm_base_pa = b'.msrpm_base_pa; intercept_msr_prot = 1 })
          × (map ≡ msrpm_contents)
          × MapAt mapped pa 2 b'.msrpm_base_pa pa')
        (setup_vmcb_msr mapped pa b)
unfolding setup_vmcb_msr
setup_vmcb_msr_lem mapped pa b =
    OnDone->>= (λ r. alloc_aligned_pages mapped pa 2 page_size ≡ done r) _
      (alloc_aligned_pages mapped pa 2 page_size) _
      (itself (alloc_aligned_pages mapped pa 2 page_size))
      (λ (msrpm, pa') e.
        OnDone-cases _ (msrpm == 0) _ _ (λ _. tt)
          (λ some_page. (refl, refl, (msrpm, e, some_page, refl))))

setup_vmcb_ioio_lem :
    (mapped : Bool) (pa : PageAllocator) (b : Vmcb)
    → OnDone
        (λ ((b', map, pa') : Vmcb × BitMap × PageAllocator).
          (walls b' ≡ record (walls b) { iopm_base_pa = b'.iopm_base_pa; intercept_ioio_prot = 1 })
          × (map ≡ iopm_contents)
          × MapAt mapped pa 3 b'.iopm_base_pa pa')
        (setup_vmcb_ioio mapped pa b)
unfolding setup_vmcb_ioio
setup_vmcb_ioio_lem mapped pa b =
    OnDone->>= (λ r. alloc_aligned_pages mapped pa 3 page_size ≡ done r) _
      (alloc_aligned_pages mapped pa 3 page_size) _
      (itself (alloc_aligned_pages mapped pa 3 page_size))
      (λ (iopm, pa') e.
        OnDone-cases _ (iopm == 0) _ _ (λ _. tt)
          (λ some_page. (refl, refl, (iopm, e, some_page, refl))))

closed_of :
    (asid : ℕ) (w x : Walls)
    → w ≡ x
    → x ≡ closed asid x.iopm_base_pa x.msrpm_base_pa x.n_cr3
    → w ≡ closed asid w.iopm_base_pa w.msrpm_base_pa w.n_cr3
closed_of asid w x e c =
    subst (λ (u : Walls). u ≡ closed asid u.iopm_base_pa u.msrpm_base_pa u.n_cr3) (sym e) c

-- What the set-up of the guest's state leaves.
abbrev StateOf : Bool → ℕ → SvmVcpu × BitMap × BitMap × PageAllocator → Type 0
StateOf mapped asid (v, msrpm, iopm, pa) =
    (walls v.vmcb ≡ closed asid v.vmcb.iopm_base_pa v.vmcb.msrpm_base_pa v.vmcb.n_cr3)
    × (msrpm ≡ msrpm_contents)
    × (iopm ≡ iopm_contents)
    × Placed mapped v.vmcb pa

seg-walls : (b : Vmcb) → OnDone (λ (b' : Vmcb). walls b' ≡ walls b) (setup_vmcb_seg b)
seg-walls b = rw (setup_vmcb_seg_lem b) refl

setup_vmcb-StateOf :
    (mapped : Bool) (pa : PageAllocator) (v : SvmVcpu)
    → OnDone (StateOf mapped v.asid) (setup_vmcb mapped pa v)
unfolding setup_vmcb
setup_vmcb-StateOf mapped pa v =
    OnDone->>= _ (StateOf mapped v.asid) (setup_vmcb_seg (control_fields v.asid v.vmcb)) _
      (seg-walls (control_fields v.asid v.vmcb))
      (λ b e.
        OnDone->>= _ (StateOf mapped v.asid) (setup_vmcb_msr mapped pa (state_fields b)) _
          (setup_vmcb_msr_lem mapped pa (state_fields b))
          (λ (b₁, msrpm, pa₁) (e₁, m₁, at₁).
            OnDone->>= _ (StateOf mapped v.asid) (setup_vmcb_ioio mapped pa₁ b₁) _
              (setup_vmcb_ioio_lem mapped pa₁ b₁)
              (λ (b₂, iopm, pa₂) (e₂, m₂, at₂). (
                closed_of v.asid (walls b₂)
                    (record (walls (control_fields v.asid v.vmcb)) {
                      iopm_base_pa = b₂.iopm_base_pa;
                      intercept_ioio_prot = 1;
                      msrpm_base_pa = b₁.msrpm_base_pa;
                      intercept_msr_prot = 1;
                    })
                    (e₂
                      ∙ ap
                          (λ (w : Walls). record w {
                            iopm_base_pa = b₂.iopm_base_pa;
                            intercept_ioio_prot = 1;
                          })
                          e₁
                      ∙ ap
                          (λ (w : Walls). record w {
                            iopm_base_pa = b₂.iopm_base_pa;
                            intercept_ioio_prot = 1;
                            msrpm_base_pa = b₁.msrpm_base_pa;
                            intercept_msr_prot = 1;
                          })
                          e)
                    refl,
                m₁,
                m₂,
                (
                  pa,
                  pa₁,
                  subst (λ base. MapAt mapped pa 2 base pa₁)
                      (sym (ap (λ (w : Walls). w.msrpm_base_pa) e₂)) at₁,
                  at₂,
                ),
              ))))

setup_guest_state-StateOf :
    (mapped : Bool) (pa : PageAllocator) (v : SvmVcpu)
    → OnDone (StateOf mapped v.asid) (svm_vcpu_setup_guest_state mapped pa v)
unfolding svm_vcpu_setup_guest_state
setup_guest_state-StateOf mapped pa v =
    OnDone->>= (StateOf mapped v.asid) (StateOf mapped v.asid) (setup_vmcb mapped pa v) _
      (setup_vmcb-StateOf mapped pa v) (λ (v', msrpm, iopm, pa') h. h)

virtualize_asid :
    (mapped : Bool) (efer : ℕ) (pa : PageAllocator) (v : SvmVcpu) (h : History)
    → OnDone
        (λ (r : SvmVcpu × History × PageAllocator). r.0.asid ≡ v.asid)
        (svm_vcpu_virtualize mapped efer pa v h)
unfolding svm_vcpu_virtualize
virtualize_asid mapped efer pa v h =
    OnDone->>= (λ _. Unit {0}) _ (alloc mapped pa page_size) _ (always (alloc mapped pa page_size))
      (λ (hsave, pa₁) _.
        OnDone->>= (λ _. Unit {0}) _
          (if hsave == 0
            then stop panicked
            else done (set_msr msr_vm_hsave_pa (virt2phys mapped hsave) ∷ h))
          _
          (always (
            if hsave == 0
            then stop panicked
            else done (set_msr msr_vm_hsave_pa (virt2phys mapped hsave) ∷ h)))
          (λ h₁ _.
            OnDone->>= (λ _. Unit {0}) _ (alloc_aligned_pages mapped pa₁ 1 page_size) _
              (always (alloc_aligned_pages mapped pa₁ 1 page_size))
              (λ (vmcb, pa₂) _. OnDone-if _ (vmcb == 0) _ _ tt refl)))

vm_init-IsClosed :
    (mapped : Bool) (efer : ℕ) (pa : PageAllocator) (v : SvmVcpu) (h : History)
    → OnDone (IsClosed mapped v.asid) (vm_init mapped efer pa v h)
unfolding vm_init
vm_init-IsClosed mapped efer pa v h =
    OnDone->>= (λ (r : SvmVcpu × History × PageAllocator). r.0.asid ≡ v.asid)
      (IsClosed mapped v.asid) (svm_vcpu_virtualize mapped efer pa v h) _
      (virtualize_asid mapped efer pa v h)
      (λ (v₁, h', pa₁) same.
        OnDone->>= (StateOf mapped v₁.asid) (IsClosed mapped v.asid)
          (svm_vcpu_setup_guest_state mapped pa₁ v₁) _ (setup_guest_state-StateOf mapped pa₁ v₁)
          (λ (v₂, msrpm, iopm, pa₂) (w, m₁, m₂, placed). (
            subst
                (λ a.
                  walls v₂.vmcb ≡ closed a v₂.vmcb.iopm_base_pa v₂.vmcb.msrpm_base_pa v₂.vmcb.n_cr3)
                same w,
            m₁,
            m₂,
            placed,
          )))

Served-trans : (m m' m'' : Machine) → Served m m' → Served m' m'' → Served m m''
Served-trans m m' m'' ((w, s), io) ((w', s'), io') = (
  (w' ∙ w, s' ∙ s),
  Permitted-trans io
      (subst (λ serial. Permitted serial m'.io m''.io) (ap (λ (i : ℕ × ℕ × ℕ × ℕ × ℕ). i.4) s) io'),
)

Round-Served : {m m' : Machine} → Round m m' → Served m m'
Round-Served {m} {m'} (round guest env quiet run) =
    Served-trans m (asm_vmrun guest m) m' (vmrun-Served guest m quiet)
      (handle_exit-Served env (asm_vmrun guest m) run)

Reach-Served : {m m' : Machine} → Reach m m' → Served m m'
Reach-Served here = ((refl, refl), none_yet)
Reach-Served {m} {m'} (next {m' = u} r step) =
    Served-trans m u m' (Reach-Served r) (Round-Served step)

-- From the state that `vm_init` and `svm_vcpu_set_npt` leave for a new virtual CPU, after any number
-- of rounds of `svm_vcpu_loop`, whatever the guest does and whatever comes from outside, if the
-- processor never writes the control block's intercepts, map addresses and fields of nested paging:
-- all seven intercepts are on, and nested paging is on with the root that was set; the permission
-- maps have the contents `msrpm_contents` and `iopm_contents`, and the control block has the
-- physical addresses of the two and of the three pages that the page allocator handed out for them,
-- last and one after the other; the virtual CPU has its host's serial port and its guest base; and
-- on the guest's behalf the host has accessed bytes at the ports 0x40 to 0x4A, at four registers of
-- the first serial port and at two of its own, written TSC_AUX, and nothing else.
pub confined :
    (mapped : Bool) (efer : ℕ) (pa : PageAllocator) (asid serial : ℕ) (h : History)
    (n_cr3 host_start : ℕ) (rounds : List (Guest × Env)) {v : SvmVcpu} {msrpm iopm : BitMap}
    {h' : History} {pa' : PageAllocator} {m : Machine}
    → vm_init mapped efer pa (svm_vcpu_new asid serial) h ≡ done (v, msrpm, iopm, h', pa')
    → AllQuiet rounds
    → svm_vcpu_loop rounds (record { vcpu = svm_vcpu_set_npt mapped n_cr3 host_start v; io = h' })
      ≡ done m
    → (walls m.vcpu.vmcb ≡ closed asid v.vmcb.iopm_base_pa v.vmcb.msrpm_base_pa n_cr3)
      × (msrpm ≡ msrpm_contents)
      × (iopm ≡ iopm_contents)
      × Placed mapped v.vmcb pa'
      × (m.vcpu.serial ≡ v.serial)
      × (m.vcpu.guest_base ≡ virt2phys mapped host_start)
      × Permitted v.serial h' m.io
unfolding svm_vcpu_set_npt svm_vcpu_new
confined mapped efer pa asid serial h n_cr3 host_start rounds {v} run quiet loop =
    let (w, m₁, m₂, placed) =
      OnDone_elim (IsClosed mapped asid) (vm_init mapped efer pa (svm_vcpu_new asid serial) h)
        (vm_init-IsClosed mapped efer pa (svm_vcpu_new asid serial) h) run in
    let ((fixed, same), io) = Reach-Served (svm_vcpu_loop-Reach rounds _ quiet loop) in
    (
      fixed ∙ ap (λ (u : Walls). record u { n_cr3 = n_cr3 }) w,
      m₁,
      m₂,
      placed,
      ap (λ (i : ℕ × ℕ × ℕ × ℕ × ℕ). i.4) same,
      ap (λ (i : ℕ × ℕ × ℕ × ℕ × ℕ). i.3) same,
      io,
    )
