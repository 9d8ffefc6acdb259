-- ===== src/Memlib/Fill.antt =====
-- What `memset` of memlib/memcpy.cc writes, against the one of the boot loader.
use deliceos.Base.{ℕ, ◌+◌, ◌-◌, ◌<◌, ◌≡◌, ◌↔◌, arith}
use deliceos.Memory
use deliceos.Memory.{Mem, store}
use deliceos.Memory.Fill.{memset_fills}
use deliceos.Memlib.{memset}

-- The `memset` of memlib has the effect of the `memset` of the boot loader exactly when every
-- byte of the range but the first holds `byte` already.
pub memlib_memset_iff :
    (m : Mem) (dst byte size : ℕ)
    → ((x : ℕ) → memset m dst byte size x ≡ Memory.memset m dst byte size x)
      ↔ ((i : ℕ) → 0 < i → i < size → m (dst + i) ≡ byte)
unfolding memset store
memlib_memset_iff m dst byte size = (
  λ same i p q. ground (arith, same (dst + i), memset_fills m dst byte size (dst + i)),
  λ held x. ground (arith, memset_fills m dst byte size x, held (x - dst)),
)
