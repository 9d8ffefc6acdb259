-- ===== src/Perf/Zero.antt =====
-- The loop of stores in `unoptimized_function2` of bootloader/delice_pxe/src/perfctr.cc.
use deliceos.Base.{
  ℕ, zero, suc, ◌+◌, ◌*◌, ◌/◌, ◌^◌, ◌≤◌, ◌<◌, ◌≡◌, ◌&&◌, ltb, leb, if◌then◌else◌, u32, arith,
}
use deliceos.Memory.{Mem, store, memset}
use deliceos.Memory.Cells.{write}
use deliceos.Memory.Fill.{memset_fills}
use deliceos.Perf.{store_zeros, rounds, unoptimized_function2}

write_zero :
    (n : ℕ) (m : Mem) (a x : ℕ) → write n m a 0 x ≡ (if leb a x && ltb x (a + n) then 0 else m x)
unfolding write store
write_zero zero m a x = ground arith
write_zero (suc n) m a x = ground (arith, write_zero n (store m a 0) (a + 1) x)

store_zeros_lem :
    (left dst : ℕ) (m : Mem) (x : ℕ)
    → store_zeros left dst m x ≡ (if leb dst x && ltb x (dst + 8 * left) then 0 else m x)
unfolding store_zeros
store_zeros_lem zero dst m x = ground arith
store_zeros_lem (suc left) dst m x =
    ground (arith, store_zeros_lem left (dst + 8) (write 8 m dst 0) x, write_zero 8 m dst x)

-- With a size from 8 up to 2 ^ 35, the loop does what `memset` does with zeros on the whole words of
-- that size.
pub unoptimized_function2-memset :
    (addr size : ℕ) (m : Mem) (x : ℕ)
    → 8 ≤ size
    → size < 2 ^ 35
    → unoptimized_function2 addr size m x ≡ memset m addr 0 (8 * (size / 8)) x
unfolding unoptimized_function2
unoptimized_function2-memset addr size m x least most = ground (
  arith,
  store_zeros_lem (rounds (u32 (size / 8))) addr m x,
  memset_fills m addr 0 (8 * (size / 8)) x,
  is,
)
  where
    is : rounds (u32 (size / 8)) ≡ size / 8
    is = ground arith
