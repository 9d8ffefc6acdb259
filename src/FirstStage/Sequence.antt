-- ===== src/FirstStage/Sequence.antt =====
-- The processors one after another: each goes through bootloader/firststage/bootloader.s and
-- `start_kernel` of bootloader/delice_pxe/src/init.cc, and waits at the byte `stack_wait` until the
-- one before has set it. `FirstStage/Sequence/Parked` is about the application processors,
-- `FirstStage/Sequence/Whole` about all.
pub mod Kept
pub mod Said
pub mod Parked
pub mod Whole
mod Tests
use deliceos.Base.{bit_or, ℕ, ◌==◌, List, [], ◌∷◌, Option, none, some, if◌then◌else◌}
use deliceos.Memory.{Mem, store}
use deliceos.Machine.{
  Hardware, Cmd, ok, hang, out_of_fuel, pure, issue, mmio_load, load_idtr, ◌>>=◌, ◌>>◌,
}
use deliceos.Machine.Io.{inb, outb}
use deliceos.Console.{Console, Formatter}
use deliceos.Init.{Kernel, Places, stack_wait, start_kernel}
use deliceos.FirstStage.{early_page}
use deliceos.FirstStage.MemoryMap.{Bios, get_physical}

abbrev pub with_map : Option Mem → Cmd (Unit {0})
with_map none s = out_of_fuel
with_map (some m) s = ok tt (record s { mem = early_page m })

module _ (bios : Bios) (fuel : ℕ) where
  -- From `.wait_for_stack` on: the byte is taken, the memory map collected and the page tables
  -- written. With no other processor on its way the byte stays 0 if it is.
  abbrev pub take_turn : Cmd (Unit {0})
  take_turn s =
      if s.mem stack_wait == 0
      then hang s
      else with_map (get_physical bios fuel (store s.mem stack_wait 0)) s

  -- The A20 line before it, and behind it the identifier of the processor, the masks of the interrupt
  -- controllers and the empty interrupt table.
  pub first_stage : Hardware → Cmd (Unit {0})
  first_stage hw = do
    al ← inb hw 0x92
    outb 0x92 (bit_or al 2)
    take_turn
    issue (mmio_load 0xfee00020)
    outb 0xa1 0xff
    outb 0x21 0xff
    issue (load_idtr 0 0)

  module _ (vsnprintf : Formatter) (places : Places)
      (constructors : List (Console → Cmd Console)) where
    pub boot : Hardware → Kernel → Cmd Kernel
    boot hw k = first_stage hw >> start_kernel hw fuel vsnprintf places constructors k

    pub boot_all : List Hardware → Kernel → Cmd Kernel
    boot_all [] k = pure k
    boot_all (hw ∷ hws) k = boot hw k >>= boot_all hws
