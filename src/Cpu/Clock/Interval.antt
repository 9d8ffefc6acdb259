-- ===== src/Cpu/Clock/Interval.antt =====
-- What `rdtsc_s` and `rdtsc_e` of bootloader/delice_pxe/includes/misc/cpu.h measure together.
use deliceos.Base.{
  ℕ, ◌∷◌, ◌/◌, ◌%◌, ◌^◌, ◌<◌, ◌≡◌, refl, ◌∙◌, arith, List, u32, pos, ◌-ℤ◌, signed64,
}
use deliceos.Machine.{
  Event, Hardware, Machine, Cmd, ok, pure, ◌>>=◌, ◌>>◌, read_tsc, read_tscp, serialize,
}
use deliceos.Cpu.Registers.{join_halves}
use deliceos.Cpu.Clock.{joined, rdtsc, rdtsc_s, rdtscp, rdtsc_e}

-- A counter that stands at `n h` after what was issued, read in halves, and that has not come to
-- its highest bit.
pub record Counts (hw : Hardware) (n : List Event → ℕ) : Type 0 where
  pub halves : (h : List Event) → hw.on_rdtsc h ≡ (n h / 2 ^ 32, n h % 2 ^ 32)
  pub below : (h : List Event) → n h < 2 ^ 63

joined_is : (v : ℕ) → v < 2 ^ 63 → joined (v / 2 ^ 32, v % 2 ^ 32) ≡ v
joined_is v h = join_halves (u32 (v / 2 ^ 32)) (u32 (v % 2 ^ 32)) (omega arith) ∙ omega arith

stamp : (v : ℕ) → v < 2 ^ 63 → signed64 (joined (v / 2 ^ 32, v % 2 ^ 32)) ≡ pos v
stamp v h = rw (joined_is v h) (ground arith)

module _ (hw : Hardware) (n : List Event → ℕ) (counts : Counts hw n) where
  rdtsc_s_lem :
      (s : Machine)
      → rdtsc_s hw s
        ≡ ok (pos (n (serialize ∷ s.trace))) (record s { trace = read_tsc ∷ serialize ∷ s.trace })
  unfolding rdtsc_s rdtsc
  rdtsc_s_lem s =
      rw (counts.halves (serialize ∷ s.trace), stamp (n (serialize ∷ s.trace)) (counts.below _))
        refl

  rdtsc_e_lem :
      (s : Machine)
      → rdtsc_e hw s ≡ ok (pos (n s.trace)) (record s { trace = serialize ∷ read_tscp ∷ s.trace })
  unfolding rdtsc_e rdtscp
  rdtsc_e_lem s = rw (counts.halves s.trace, stamp (n s.trace) (counts.below _)) refl

  -- Around a body that returns, the two stamps differ by the counts from behind the first `cpuid` to
  -- the end of the body; the second `cpuid` follows the second stamp.
  pub rdtsc_e-rdtsc_s :
      (body : Cmd (Unit {0})) (s t : Machine)
      → body (record s { trace = read_tsc ∷ serialize ∷ s.trace }) ≡ ok tt t
      → (rdtsc_s hw >>= λ a. body >> (rdtsc_e hw >>= λ b. pure (b -ℤ a))) s
        ≡ ok
            (pos (n t.trace) -ℤ pos (n (serialize ∷ s.trace)))
            (record t { trace = serialize ∷ read_tscp ∷ t.trace })
  rdtsc_e-rdtsc_s body s t ends = rw (rdtsc_s_lem s, ends, rdtsc_e_lem t) refl
