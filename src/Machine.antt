-- ===== src/Machine.antt =====
-- The machine as the boot loader's C++ code sees it: byte memory, and the instructions that reach a
-- device, in the order in which they were issued. bootloader/delice_pxe/includes/misc/io.h and
-- includes/misc/cpu.h wrap those instructions; what a device answers is a parameter.
pub mod Io
use deliceos.Base.{ℕ, zero, suc, ◌+◌, ◌*◌, ◌/◌, ◌%◌, ◌^◌, List, [], ◌∷◌, u8, u16, u32}
use deliceos.Memory.{Mem}

-- One instruction with its operands; `serialize` is a `cpuid` that is issued as a barrier.
pub data Event : Type 0 where
  out_port : (port byte : ℕ) → Event
  in_port : (port : ℕ) → Event
  mmio_store : (addr value : ℕ) → Event
  mmio_load : (addr : ℕ) → Event
  write_msr : (msr low high : ℕ) → Event
  read_msr : (msr : ℕ) → Event
  read_pmc : (id : ℕ) → Event
  load_idtr : (limit base : ℕ) → Event
  flush_page : (addr : ℕ) → Event
  cli sti hlt wbinvd mfence lfence read_tsc read_tscp serialize : Event

-- What a device answers, given all that was issued before, the latest first. A pair holds the high
-- and the low half that an instruction leaves in edx and eax; `cpuid` gives eax, ebx, ecx, edx.
pub record Hardware : Type 0 where
  pub on_in : List Event → ℕ → ℕ
  pub on_load : List Event → ℕ → ℕ
  pub on_rdmsr : List Event → ℕ → ℕ × ℕ
  pub on_rdpmc : List Event → ℕ → ℕ × ℕ
  pub on_rdtsc : List Event → ℕ × ℕ
  pub on_cpuid : ℕ → ℕ → ℕ × ℕ × ℕ × ℕ

pub record Machine : Type 0 where
  pub mem : Mem
  pub trace : List Event

-- A run returns, stays for ever in an empty loop, or has used up the fuel of a polling loop.
pub data Run (A : Type 0) : Type 0 where
  ok : A → Machine → Run A
  hang : Machine → Run A
  out_of_fuel : Run A

abbrev pub Cmd : Type 0 → Type 0
Cmd A = Machine → Run A

abbrev pub pure : {A : Type 0} → A → Cmd A
pure a s = ok a s

module _ {A B : Type 0} where
  abbrev pub then_run : Run A → (A → Cmd B) → Run B
  then_run (ok a s) k = k a s
  then_run (hang s) k = hang s
  then_run out_of_fuel k = out_of_fuel

  infixl 5 ◌>>=◌ ◌>>◌
  abbrev pub ◌>>=◌ : Cmd A → (A → Cmd B) → Cmd B
  m >>= k = λ s. then_run (m s) k

  abbrev pub ◌>>◌ : Cmd A → Cmd B → Cmd B
  m >> n = m >>= λ _. n

abbrev pub issue : Event → Cmd (Unit {0})
issue e s = ok tt (record s { trace = e ∷ s.trace })
