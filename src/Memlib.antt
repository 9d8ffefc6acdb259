-- ===== src/Memlib.antt =====
-- The freestanding routines of memlib/memcpy.cc. A behaviour that C++ leaves undefined is `none`.
pub mod Fill
pub mod Move
mod Tests
use deliceos.Base.{
  ℕ, zero, suc, ◌+◌, ◌-◌, ◌^◌, Option, none, some, ◌==◌, ltb, if◌then◌else◌, u32, ℤ, pos, negsuc,
  signed32,
}
use deliceos.Memory.{Mem, store}

-- The `int` that `size` is compared with is 0.
pub memset : Mem → ℕ → ℕ → ℕ → Mem
memset m dst byte size = if ltb 0 size then store m dst byte else m

-- `while (i != 0) { i -= 1; dst[i] = src[i]; }`: from a negative `i` the loop runs down to the
-- least `int`, whose decrement overflows.
pub copy_down : ℕ → ℕ → ℕ → Mem → Mem
copy_down zero dst src m = m
copy_down (suc i) dst src m = copy_down i dst src (store m (dst + i) (m (src + i)))

pub copy_backward : ℤ → ℕ → ℕ → Mem → Option Mem
copy_backward (pos i) dst src m = some (copy_down i dst src m)
copy_backward (negsuc i) dst src m = none

-- `while (i < size) { dst[i] = src[i]; i += 1; }` with `left` rounds to go. The greatest `int`
-- has no successor.
pub copy_forward : ℕ → ℕ → ℕ → ℕ → Mem → Option Mem
copy_forward zero i dst src m = some m
copy_forward (suc left) i dst src m =
    let rest = copy_forward left (i + 1) dst src (store m (dst + i) (m (src + i))) in
    if i == 2 ^ 31 - 1 then none else rest

pub memmove : Mem → ℕ → ℕ → ℕ → Option Mem
memmove m dst src size =
    if ltb src dst
    then copy_backward (signed32 (u32 size)) dst src m
    else copy_forward size 0 dst src m
