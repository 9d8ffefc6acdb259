-- ===== src/Memlib/Move.antt =====
-- What `memmove` of memlib/memcpy.cc writes, for every overlap.
use deliceos.Base.{
  ℕ, zero, suc, ◌+◌, ◌-◌, ◌%◌, ◌^◌, ◌≤◌, ◌<◌, ◌≡◌, refl, inl, inr, ◌&&◌, none, some, ◌∙◌, ltb, leb,
  if◌then◌else◌, arith, Bool-cases,
}
use deliceos.Memory.{Mem, store}
use deliceos.Memlib.{copy_down, copy_forward, copy_backward, memmove}

-- The effect of a copy that reads the whole source before it writes.
pub copied : Mem → ℕ → ℕ → ℕ → Mem
copied m dst src size x = if leb dst x && ltb x (dst + size) then m (src + (x - dst)) else m x

copy_down_lem :
    (i dst src : ℕ) (m : Mem) (x : ℕ) → src ≤ dst → copy_down i dst src m x ≡ copied m dst src i x
unfolding copy_down copied store
copy_down_lem zero dst src m x h = ground arith
copy_down_lem (suc i) dst src m x h =
    ground (arith, copy_down_lem i dst src (store m (dst + i) (m (src + i))) x)

-- What is left of the source is still as it was, since the bytes written so far lie before it.
copy_forward_lem :
    (left i dst src : ℕ) (m : Mem)
    → dst ≤ src
    → i + left < 2 ^ 31
    → (out : Mem) × (copy_forward left i dst src m ≡ some out)
      × ((x : ℕ) → out x ≡ copied m (dst + i) (src + i) left x)
unfolding copy_forward copied store
copy_forward_lem zero i dst src m h g = (m, refl, λ x. ground arith)
copy_forward_lem (suc left) i dst src m h g =
    let rest =
      copy_forward_lem left (i + 1) dst src (store m (dst + i) (m (src + i))) h (omega arith) in
    (rest.0, ground (arith, rest.1), λ x. ground (arith, rest.2 x))

-- The loop upwards meets the greatest `int` while bytes are left.
copy_forward_overflows :
    (left i dst src : ℕ) (m : Mem)
    → i < 2 ^ 31
    → 2 ^ 31 ≤ i + left
    → copy_forward left i dst src m ≡ none
unfolding copy_forward
copy_forward_overflows zero i dst src m h g = absurd (omega arith)
copy_forward_overflows (suc left) i dst src m h g =
    ground (arith, copy_forward_overflows left (i + 1) dst src (store m (dst + i) (m (src + i))))

-- Downwards, `int i = size` keeps the size only modulo 2 ^ 32.
backward :
    (m : Mem) (dst src size : ℕ)
    → src < dst
    → size % 2 ^ 32 < 2 ^ 31
    → memmove m dst src size ≡ some (copy_down (size % 2 ^ 32) dst src m)
unfolding memmove copy_backward
backward m dst src size h g = ground arith

forward :
    (m : Mem) (dst src size : ℕ)
    → dst ≤ src
    → memmove m dst src size ≡ copy_forward size 0 dst src m
unfolding memmove
forward m dst src size h = ground arith

-- For fewer than 2 ^ 31 bytes `memmove` has a defined result, which is the copy of the source as
-- it was before the call, in whatever way the two ranges overlap; no other byte changes.
pub memmove_copies :
    (m : Mem) (dst src size : ℕ)
    → size < 2 ^ 31
    → (out : Mem) × (memmove m dst src size ≡ some out)
      × ((x : ℕ) → out x ≡ copied m dst src size x)
memmove_copies m dst src size h = elim (Bool-cases (ltb src dst)) [
  | inl below ↦ (
    copy_down size dst src m,
    ground (arith, backward m dst src size),
    λ x. copy_down_lem size dst src m x (ground arith),
  )
  | inr above ↦
      let (out, ran, reads) = copy_forward_lem size 0 dst src m (ground arith) (omega arith) in
      (out, ground (arith, forward m dst src size), λ x. ground (arith, reads x))
]

-- For 2 ^ 31 bytes or more `memmove` is undefined unless the source lies below the destination;
-- where it does, exactly the low 32 bits of the size count: with 2 ^ 31 or more there it is
-- undefined, and otherwise so many bytes are copied as they say, none at a multiple of 2 ^ 32.
pub memmove_large :
    (m : Mem) (dst src size : ℕ)
    → 2 ^ 31 ≤ size
    → (dst ≤ src → memmove m dst src size ≡ none)
      × (src < dst → 2 ^ 31 ≤ size % 2 ^ 32 → memmove m dst src size ≡ none)
      × (src < dst
          → size % 2 ^ 32 < 2 ^ 31
          → memmove m dst src size ≡ memmove m dst src (size % 2 ^ 32))
memmove_large m dst src size h = (
  λ above.
      forward m dst src size above
      ∙ copy_forward_overflows size 0 dst src m (omega arith) (omega arith),
  λ below high. unfold memmove copy_backward in ground arith,
  λ below low. ground (arith, backward m dst src size, backward m dst src (size % 2 ^ 32)),
)
