-- ===== src/Ioio/PicInit.antt =====
-- The initialization protocol of the controllers that the guest sees.
use ymirc.Prelude.{ℕ, ◌≡◌, refl, List, [], ◌∷◌, ◌⊎◌, inl, inr, not, ◌==◌}
use ymirc.Prelude.{Outcome, done, stop, ◌>>=◌, aborted, OnDone, OnDone-if, OnDone_elim}
use ymirc.Vcpu.{IoioGuestState, PicInitPhase, uninitialized, phase1, phase2, phase3, inited}
use ymirc.Ports.{History, output}
use ymirc.Pic.{pic_init}
use ymirc.Ioio.Info.{in_range}
use ymirc.Ioio.Pic.{pic_write, primary_command, secondary_command, primary_data, secondary_data}

-- How one controller's phase may move: ICW1 restarts the sequence from anywhere, ICW2 to ICW4 go
-- through it in order, and any other byte leaves the phase alone.
pub data PhaseStep : PicInitPhase → PicInitPhase → Type 0 where
  stay : (p : PicInitPhase) → PhaseStep p p
  icw1 : (p : PicInitPhase) → PhaseStep p phase1
  icw2 : PhaseStep phase1 phase2
  icw3 : PhaseStep phase2 phase3
  icw4 : PhaseStep phase3 inited

-- The registers of one controller, and those of the other, under a write.
pub record IsPicStep (g g' : IoioGuestState) : Type 0 where
  pub primary : PhaseStep g.primary_phase g'.primary_phase
  pub secondary : PhaseStep g.secondary_phase g'.secondary_phase
  pub uart : (g'.ier ≡ g.ier) × (g'.mcr ≡ g.mcr)
  pub one_side :
      ((g'.primary_phase ≡ g.primary_phase)
        × (g'.primary_mask ≡ g.primary_mask)
        × (g'.primary_base ≡ g.primary_base))
      ⊎ ((g'.secondary_phase ≡ g.secondary_phase)
          × (g'.secondary_mask ≡ g.secondary_mask)
          × (g'.secondary_base ≡ g.secondary_base))

same_IsPicStep : (g : IoioGuestState) → IsPicStep g g
same_IsPicStep g = record {
  primary = stay _;
  secondary = stay _;
  uart = (refl, refl);
  one_side = inl (refl, refl, refl);
}

command-IsPicStep :
    (dx : ℕ) (g : IoioGuestState)
    → OnDone (IsPicStep g) (primary_command dx g) × OnDone (IsPicStep g) (secondary_command dx g)
unfolding primary_command secondary_command
command-IsPicStep dx g = (
  OnDone-if (IsPicStep g) (dx == 0x11) _ _
      (record {
        primary = icw1 _;
        secondary = stay _;
        uart = (refl, refl);
        one_side = inr (refl, refl, refl);
      })
      (OnDone-if (IsPicStep g) (in_range 0x60 0x67 dx) (done g) (stop aborted) (same_IsPicStep g)
        tt),
  OnDone-if (IsPicStep g) (dx == 0x11) _ _
      (record {
        primary = stay _;
        secondary = icw1 _;
        uart = (refl, refl);
        one_side = inl (refl, refl, refl);
      })
      (OnDone-if (IsPicStep g) (in_range 0x60 0x67 dx) (done g) (stop aborted) (same_IsPicStep g)
        tt),
)

primary_data-IsPicStep :
    (p : PicInitPhase) (dx : ℕ) (g : IoioGuestState)
    → g.primary_phase ≡ p
    → OnDone (IsPicStep g) (primary_data p dx g)
unfolding primary_data
primary_data-IsPicStep uninitialized dx g e = record {
  primary = stay _;
  secondary = stay _;
  uart = (refl, refl);
  one_side = inr (refl, refl, refl);
}
primary_data-IsPicStep inited dx g e = record {
  primary = stay _;
  secondary = stay _;
  uart = (refl, refl);
  one_side = inr (refl, refl, refl);
}
primary_data-IsPicStep phase1 dx g e = record {
  primary = rw e icw2;
  secondary = stay _;
  uart = (refl, refl);
  one_side = inr (refl, refl, refl);
}
primary_data-IsPicStep phase2 dx g e =
    OnDone-if (IsPicStep g) (not (dx == 4)) (stop aborted) _ tt (record {
      primary = rw e icw3;
      secondary = stay _;
      uart = (refl, refl);
      one_side = inr (refl, refl, refl);
    })
primary_data-IsPicStep phase3 dx g e = record {
  primary = rw e icw4;
  secondary = stay _;
  uart = (refl, refl);
  one_side = inr (refl, refl, refl);
}

secondary_data-IsPicStep :
    (p : PicInitPhase) (dx : ℕ) (g : IoioGuestState)
    → g.secondary_phase ≡ p
    → OnDone (IsPicStep g) (secondary_data p dx g)
unfolding secondary_data
secondary_data-IsPicStep uninitialized dx g e = record {
  primary = stay _;
  secondary = stay _;
  uart = (refl, refl);
  one_side = inl (refl, refl, refl);
}
secondary_data-IsPicStep inited dx g e = record {
  primary = stay _;
  secondary = stay _;
  uart = (refl, refl);
  one_side = inl (refl, refl, refl);
}
secondary_data-IsPicStep phase1 dx g e = record {
  primary = stay _;
  secondary = rw e icw2;
  uart = (refl, refl);
  one_side = inl (refl, refl, refl);
}
secondary_data-IsPicStep phase2 dx g e =
    OnDone-if (IsPicStep g) (not (dx == 2)) (stop aborted) _ tt (record {
      primary = stay _;
      secondary = rw e icw3;
      uart = (refl, refl);
      one_side = inl (refl, refl, refl);
    })
secondary_data-IsPicStep phase3 dx g e = record {
  primary = stay _;
  secondary = rw e icw4;
  uart = (refl, refl);
  one_side = inl (refl, refl, refl);
}

-- Whatever byte the guest writes to whatever port, a write that is accepted moves each phase by the
-- initialization protocol, changes at most one controller, and no register of the serial port.
pub pic_write-IsPicStep :
    (port dx : ℕ) (g : IoioGuestState) {g' : IoioGuestState}
    → pic_write port dx g ≡ done g'
    → IsPicStep g g'
pic_write-IsPicStep port dx g = OnDone_elim (IsPicStep g) (pic_write port dx g) (
    unfold pic_write in
    OnDone-if (IsPicStep g) (port == 0x20) _ _ (command-IsPicStep dx g).0 (
      OnDone-if (IsPicStep g) (port == 0x21) _ _ (primary_data-IsPicStep g.primary_phase dx g refl)
        (OnDone-if (IsPicStep g) (port == 0xA0) _ _ (command-IsPicStep dx g).1 (
          OnDone-if (IsPicStep g) (port == 0xA1) _ _
            (secondary_data-IsPicStep g.secondary_phase dx g refl) tt))))

-- Bytes written to the guest's controllers, in order.
unfoldable pub write_all : List (ℕ × ℕ) → IoioGuestState → Outcome IoioGuestState
write_all [] g = done g
write_all ((port, dx) ∷ rest) g = do g' ← pic_write port dx g; write_all rest g'

-- The initialization sequence with any vector offsets, mode bytes and masks.
abbrev pub init_sequence : ℕ → ℕ → ℕ → ℕ → ℕ → ℕ → List (ℕ × ℕ)
init_sequence base base' mode mode' mask mask' =
    (0x20, 0x11)
    ∷ (0xA0, 0x11)
    ∷ (0x21, base)
    ∷ (0xA1, base')
    ∷ (0x21, 4)
    ∷ (0xA1, 2)
    ∷ (0x21, mode)
    ∷ (0xA1, mode')
    ∷ (0x21, mask)
    ∷ (0xA1, mask')
    ∷ []

-- From any state, in the middle of a sequence or not, the initialization sequence is accepted and
-- leaves both controllers initialized with its vector offsets and masks.
pub init_sequence_lem :
    (base base' mode mode' mask mask' : ℕ) (g : IoioGuestState)
    → write_all (init_sequence base base' mode mode' mask mask') g
      ≡ done (record {
        ier = g.ier;
        mcr = g.mcr;
        primary_mask = mask;
        secondary_mask = mask';
        primary_phase = inited;
        secondary_phase = inited;
        primary_base = base;
        secondary_base = base';
      })
unfolding write_all pic_write
init_sequence_lem base base' mode mode' mask mask' g = refl

-- The bytes that a history, newest first, wrote to ports, oldest first.
abbrev written_before : History → List (ℕ × ℕ) → List (ℕ × ℕ)
written_before [] acc = acc
written_before (output w port v ∷ h) acc = written_before h ((port, v) ∷ acc)
written_before (_ ∷ h) acc = written_before h acc

abbrev pub written : History → List (ℕ × ℕ)
written h = written_before h []

-- What the host's own `pic_init` writes is such a sequence: a guest that ran it would be accepted
-- in any state, and end with vector offsets 32 and 40 and every line masked.
pub pic_init-write_all :
    (g : IoioGuestState)
    → write_all (written (pic_init [])) g
      ≡ done (record {
        ier = g.ier;
        mcr = g.mcr;
        primary_mask = 0xFF;
        secondary_mask = 0xFF;
        primary_phase = inited;
        secondary_phase = inited;
        primary_base = 32;
        secondary_base = 40;
      })
unfolding pic_init
pic_init-write_all g = init_sequence_lem 32 40 1 1 0xFF 0xFF g
