-- ===== src/Memory.antt =====
-- Byte memory and the routine that fills it: `memset` of bootloader/delice_pxe/src/interrupt.cc, which
-- src/stdlib.cc holds once more. A memory gives the byte at every address; a routine returns the new
-- memory.
pub mod Fill
pub mod Cells
use deliceos.Base.{ℕ, zero, suc, ◌+◌, ◌==◌, if◌then◌else◌}

abbrev pub Mem : Type 0
Mem = ℕ → ℕ

-- One byte is written.
unfoldable pub store : Mem → ℕ → ℕ → Mem
store m a v x = if x == a then v else m x

-- `for (i = 0; i < size; i++) ptr[i] = byte;` with `left` rounds to go.
pub memset_loop : ℕ → ℕ → ℕ → ℕ → Mem → Mem
memset_loop zero i dst byte m = m
memset_loop (suc left) i dst byte m = memset_loop left (i + 1) dst byte (store m (dst + i) byte)

pub memset : Mem → ℕ → ℕ → ℕ → Mem
memset m dst byte size = memset_loop size 0 dst byte m
