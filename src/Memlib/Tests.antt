-- ===== src/Memlib/Tests.antt =====
-- The theorems about the memory routines at small inputs: bootloader/delice_pxe/src/stdlib.cc and
-- memlib/memcpy.cc.
use deliceos.Base.{ℕ, ◌+◌, ◌<◌, ◌≡◌, ◌↔◌, some, arith}
use deliceos.Memory
use deliceos.Memory.{Mem}
use deliceos.Memlib.{memset, memmove}
use deliceos.Memlib.Fill.{memlib_memset_iff}
use deliceos.Memlib.Move.{copied, memmove_copies}

-- Every byte holds its own address.
abbrev ramp : Mem
ramp x = x

memlib_memset_iff_example :
    ((x : ℕ) → memset ramp 4 9 3 x ≡ Memory.memset ramp 4 9 3 x)
    ↔ ((i : ℕ) → 0 < i → i < 3 → ramp (4 + i) ≡ 9)
memlib_memset_iff_example = memlib_memset_iff ramp 4 9 3

-- Overlapping ranges, with the destination above the source.
memmove_copies_example :
    (out : Mem) × (memmove ramp 12 10 4 ≡ some out) × ((x : ℕ) → out x ≡ copied ramp 12 10 4 x)
memmove_copies_example = memmove_copies ramp 12 10 4 (omega arith)
