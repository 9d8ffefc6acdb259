-- ===== src/Paging/Entry.antt =====
-- One entry of a page table: what `put_entry` writes, and what the last entry of `map_addr` holds.
use deliceos.Base.{
  ℕ, ◌+◌, ◌*◌, ◌/◌, ◌%◌, ◌^◌, ◌≤◌, ◌<◌, ◌≡◌, ◌⊎◌, ◌∙◌, arith, bit_or, bit_at, bit_at-bit_or,
  bit_or-lt, bit_or-add, bit_or-zero, ap, bit_and_mask,
}
use deliceos.Memory.{Mem, memset}
use deliceos.Memory.Fill.{memset_fills}
use deliceos.Memory.Cells.{write_byte, read, Outside, write-Outside, read-write, read_cong}
use deliceos.Paging.{put_entry, index, page_size_2mb}

pub index_lem : (shift vaddr : ℕ) → index shift vaddr ≡ vaddr / 2 ^ shift % 512
index_lem shift vaddr = bit_and_mask 9 (vaddr / 2 ^ shift)

pub put_entry_self :
    (m : Mem) (table i value : ℕ)
    → read 8 (put_entry m table i value) (table + 8 * i) ≡ value % 2 ^ 64
unfolding put_entry
put_entry_self m table i value = read-write 8 (memset m (table + 8 * i) 0 8) (table + 8 * i) value

pub put_entry-Outside :
    (m : Mem) (table i value x : ℕ)
    → Outside 8 (table + 8 * i) x
    → put_entry m table i value x ≡ m x
unfolding put_entry
put_entry-Outside m table i value x h = ground (
  arith,
  write-Outside 8 (memset m (table + 8 * i) 0 8) (table + 8 * i) value x h,
  memset_fills m (table + 8 * i) 0 8 x,
)

pub put_entry_apart :
    (m : Mem) (table i value b : ℕ)
    → (b + 8 ≤ table + 8 * i) ⊎ (table + 8 * i + 8 ≤ b)
    → read 8 (put_entry m table i value) b ≡ read 8 m b
put_entry_apart m table i value b h =
    read_cong 8 (put_entry m table i value) m b
      λ k p. put_entry-Outside m table i value (b + k) (ground arith)

-- The entry of a large page: the flags stay below bit 21 and the frame above it.
pub record IsLargePage (page flags entry : ℕ) : Type 0 where
  pub low : ℕ
  pub fits : low < 2 ^ 21
  pub split : entry ≡ page * 2 ^ 21 + low
  pub present : bit_at 0 low ≡ bit_at 0 flags
  pub writable : bit_at 1 low ≡ bit_at 1 flags
  pub uncached : bit_at 4 low ≡ bit_at 4 flags
  pub large : bit_at 7 low ≡ 1

pub large_page :
    (page flags : ℕ)
    → flags < 2 ^ 21
    → IsLargePage page flags (bit_or (bit_or flags page_size_2mb) (page * 2 ^ 21))
large_page page flags h = record {
  low = bit_or flags 128;
  fits = fits;
  split =
      ap (bit_or (bit_or flags 128)) (omega arith)
      ∙ bit_or-add 21 page (bit_or flags 128) 0 fits (omega arith)
      ∙ ap (λ t. page * 2 ^ 21 + t) (bit_or-zero 21 _ fits);
  present = omega (arith, bit_at-bit_or 0 flags 128);
  writable = omega (arith, bit_at-bit_or 1 flags 128);
  uncached = omega (arith, bit_at-bit_or 4 flags 128);
  large = omega (arith, bit_at-bit_or 7 flags 128);
}
  where
    fits : bit_or flags 128 < 2 ^ 21
    fits = bit_or-lt 21 flags 128 h (omega arith)

pub put_entry_byte :
    (m : Mem) (table i value : ℕ)
    → ((x : ℕ) → m x < 256)
    → (x : ℕ) → put_entry m table i value x < 256
unfolding put_entry
put_entry_byte m table i value bytes =
    write_byte 8 (memset m (table + 8 * i) 0 8) (table + 8 * i) value
      λ x. ground (arith, memset_fills m (table + 8 * i) 0 8 x, bytes x)
