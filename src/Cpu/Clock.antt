-- ===== src/Cpu/Clock.antt =====
-- The time stamp counter, the fences and `invlpg` of bootloader/delice_pxe/includes/misc/cpu.h.
pub mod Interval
use deliceos.Base.{ℕ, ◌∷◌, ◌+◌, ◌*◌, ◌/◌, ◌%◌, ◌^◌, bit_or, u32, ◌<<<◌, ℤ, signed64}
use deliceos.Machine.{
  Event, Hardware, Cmd, ok, pure, ◌>>=◌, ◌>>◌, issue, read_tsc, read_tscp, serialize, flush_page,
}

-- Both halves of the counter, in the number of 64 bits that they make up.
abbrev pub joined : ℕ × ℕ → ℕ
joined (high, low) = bit_or (u32 high <<< 32) (u32 low)

pub invlpg : ℕ → Cmd (Unit {0})
invlpg m = issue (flush_page m)

pub lfence : Cmd (Unit {0})
lfence = issue Event.lfence

pub mfence : Cmd (Unit {0})
mfence = issue Event.mfence

module _ (hw : Hardware) where
  pub rdtsc : Cmd ℕ
  rdtsc s = ok (joined (hw.on_rdtsc s.trace)) (record s { trace = read_tsc ∷ s.trace })

  -- `cpuid` before the counter is read.
  pub rdtsc_s : Cmd ℤ
  rdtsc_s = do issue serialize; v ← rdtsc; pure (signed64 v)

  rdtscp : Cmd ℕ
  rdtscp s = ok (joined (hw.on_rdtsc s.trace)) (record s { trace = read_tscp ∷ s.trace })

  -- `cpuid` after it.
  pub rdtsc_e : Cmd ℤ
  rdtsc_e = do v ← rdtscp; issue serialize; pure (signed64 v)
