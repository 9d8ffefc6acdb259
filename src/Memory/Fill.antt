-- ===== src/Memory/Fill.antt =====
-- What `memset` of bootloader/delice_pxe/src/stdlib.cc writes.
use deliceos.Base.{ℕ, zero, suc, ◌+◌, ◌≡◌, ◌&&◌, ltb, leb, if◌then◌else◌, arith}
use deliceos.Memory.{Mem, store, memset_loop, memset}

memset_loop_lem :
    (left i dst byte : ℕ) (m : Mem) (x : ℕ)
    → memset_loop left i dst byte m x
      ≡ (if leb (dst + i) x && ltb x (dst + i + left) then byte else m x)
unfolding memset_loop store
memset_loop_lem zero i dst byte m x = ground arith
memset_loop_lem (suc left) i dst byte m x =
    ground (arith, memset_loop_lem left (i + 1) dst byte (store m (dst + i) byte) x)

-- `memset` writes `byte` to the `size` bytes from `dst` on, and changes no other byte.
pub memset_fills :
    (m : Mem) (dst byte size x : ℕ)
    → memset m dst byte size x ≡ (if leb dst x && ltb x (dst + size) then byte else m x)
unfolding memset
memset_fills m dst byte size x = ground (arith, memset_loop_lem size 0 dst byte m x)
