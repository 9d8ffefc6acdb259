-- ===== src/Cpu/Frame.antt =====
-- What is on the stack of an interrupt, as bootloader/delice_pxe/includes/misc/cpu.h describes it:
-- `interrupt_frame`, which the processor pushes, and `registers`, to which the handler gets a pointer.
use deliceos.Base.{ℕ, ◌+◌}
use deliceos.Memory.{Mem}
use deliceos.Memory.Cells.{read}

pub record InterruptFrame : Type 0 where
  pub rip : ℕ
  pub cs : ℕ
  pub rflags : ℕ
  pub rsp : ℕ
  pub ss : ℕ

-- The frame to which a pointer leads.
abbrev pub frame_at : Mem → ℕ → InterruptFrame
frame_at m frame = record {
  rip = read 8 m frame;
  cs = read 8 m (frame + 8);
  rflags = read 8 m (frame + 16);
  rsp = read 8 m (frame + 24);
  ss = read 8 m (frame + 32);
}

pub record Registers : Type 0 where
  pub r8 : ℕ
  pub r9 : ℕ
  pub r10 : ℕ
  pub r11 : ℕ
  pub r12 : ℕ
  pub r13 : ℕ
  pub r14 : ℕ
  pub r15 : ℕ
  pub rbp : ℕ
  pub rsi : ℕ
  pub rdi : ℕ
  pub rdx : ℕ
  pub rcx : ℕ
  pub rbx : ℕ
  pub rax : ℕ

-- The structure to which a pointer leads.
abbrev pub registers_at : Mem → ℕ → Registers
registers_at m state = record {
  r8 = read 8 m state;
  r9 = read 8 m (state + 8);
  r10 = read 8 m (state + 16);
  r11 = read 8 m (state + 24);
  r12 = read 8 m (state + 32);
  r13 = read 8 m (state + 40);
  r14 = read 8 m (state + 48);
  r15 = read 8 m (state + 56);
  rbp = read 8 m (state + 64);
  rsi = read 8 m (state + 72);
  rdi = read 8 m (state + 80);
  rdx = read 8 m (state + 88);
  rcx = read 8 m (state + 96);
  rbx = read 8 m (state + 104);
  rax = read 8 m (state + 112);
}
