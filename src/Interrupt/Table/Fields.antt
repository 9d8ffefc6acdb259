-- ===== src/Interrupt/Table/Fields.antt =====
-- The six words of a descriptor in memory, and what a store to one of them does to all.
use deliceos.Base.{ℕ, zero, suc, ◌+◌, ◌/◌, ◌%◌, ◌^◌, ◌<◌, ◌≤◌, ◌≡◌, ◌∙◌, inl, inr, refl, arith}
use deliceos.Memory.{Mem, memset}
use deliceos.Memory.Cells.{read, write, read-write, read-write_apart, read_cong}
use deliceos.Memory.Fill.{memset_fills}
use deliceos.Interrupt.{IdtDesc}

-- `struct IDT_Desc` at the address `a`: the bit-fields of a word stand from its lowest bit on.
abbrev pub desc_at : Mem → ℕ → IdtDesc
desc_at m a = record {
  offset_1 = read 2 m a;
  selector = read 2 m (a + 2);
  ist = read 2 m (a + 4) % 2 ^ 3;
  res0 = read 2 m (a + 4) / 2 ^ 3 % 2 ^ 5;
  type = read 2 m (a + 4) / 2 ^ 8 % 2 ^ 4;
  res1 = read 2 m (a + 4) / 2 ^ 12 % 2;
  dpl = read 2 m (a + 4) / 2 ^ 13 % 2 ^ 2;
  present = read 2 m (a + 4) / 2 ^ 15 % 2;
  offset_2 = read 2 m (a + 6);
  offset_3 = read 4 m (a + 8);
  res2 = read 4 m (a + 12);
}

-- The words at `a` read `o1`, `sel`, `bits`, `o2`, `o3` and `r2`.
pub record Words (m : Mem) (a o1 sel bits o2 o3 r2 : ℕ) : Type 0 where
  pub w0 : read 2 m a ≡ o1
  pub w2 : read 2 m (a + 2) ≡ sel
  pub w4 : read 2 m (a + 4) ≡ bits
  pub w6 : read 2 m (a + 6) ≡ o2
  pub w8 : read 4 m (a + 8) ≡ o3
  pub w12 : read 4 m (a + 12) ≡ r2

read_zero : (n a : ℕ) → read n (λ x. 0) a ≡ 0
unfolding read
read_zero zero a = refl
read_zero (suc n) a = omega (arith, read_zero n (a + 1))

read-memset :
    (n : ℕ) (m : Mem) (dst size a : ℕ)
    → dst ≤ a
    → a + n ≤ dst + size
    → read n (memset m dst 0 size) a ≡ 0
read-memset n m dst size a h g =
    read_cong n (memset m dst 0 size) (λ x. 0) a
      (λ i p. ground (arith, memset_fills m dst 0 size (a + i)))
    ∙ read_zero n a

pub memset-Words : (m : Mem) (a : ℕ) → Words (memset m a 0 16) a 0 0 0 0 0 0
memset-Words m a = record {
  w0 = read-memset 2 m a 16 a (omega arith) (omega arith);
  w2 = read-memset 2 m a 16 (a + 2) (omega arith) (omega arith);
  w4 = read-memset 2 m a 16 (a + 4) (omega arith) (omega arith);
  w6 = read-memset 2 m a 16 (a + 6) (omega arith) (omega arith);
  w8 = read-memset 4 m a 16 (a + 8) (omega arith) (omega arith);
  w12 = read-memset 4 m a 16 (a + 12) (omega arith) (omega arith);
}

module _ (m : Mem) (a v : ℕ) {o1 sel bits o2 o3 r2 : ℕ} (w : Words m a o1 sel bits o2 o3 r2) where
  pub write_0-Words : Words (write 2 m a v) a (v % 2 ^ 16) sel bits o2 o3 r2
  write_0-Words = record {
    w0 = read-write 2 m a v;
    w2 = read-write_apart 2 2 m (a + 2) a v (inr (omega arith)) ∙ w.w2;
    w4 = read-write_apart 2 2 m (a + 4) a v (inr (omega arith)) ∙ w.w4;
    w6 = read-write_apart 2 2 m (a + 6) a v (inr (omega arith)) ∙ w.w6;
    w8 = read-write_apart 4 2 m (a + 8) a v (inr (omega arith)) ∙ w.w8;
    w12 = read-write_apart 4 2 m (a + 12) a v (inr (omega arith)) ∙ w.w12;
  }

  pub write_2-Words : Words (write 2 m (a + 2) v) a o1 (v % 2 ^ 16) bits o2 o3 r2
  write_2-Words = record {
    w0 = read-write_apart 2 2 m a (a + 2) v (inl (omega arith)) ∙ w.w0;
    w2 = read-write 2 m (a + 2) v;
    w4 = read-write_apart 2 2 m (a + 4) (a + 2) v (inr (omega arith)) ∙ w.w4;
    w6 = read-write_apart 2 2 m (a + 6) (a + 2) v (inr (omega arith)) ∙ w.w6;
    w8 = read-write_apart 4 2 m (a + 8) (a + 2) v (inr (omega arith)) ∙ w.w8;
    w12 = read-write_apart 4 2 m (a + 12) (a + 2) v (inr (omega arith)) ∙ w.w12;
  }

  pub write_4-Words : Words (write 2 m (a + 4) v) a o1 sel (v % 2 ^ 16) o2 o3 r2
  write_4-Words = record {
    w0 = read-write_apart 2 2 m a (a + 4) v (inl (omega arith)) ∙ w.w0;
    w2 = read-write_apart 2 2 m (a + 2) (a + 4) v (inl (omega arith)) ∙ w.w2;
    w4 = read-write 2 m (a + 4) v;
    w6 = read-write_apart 2 2 m (a + 6) (a + 4) v (inr (omega arith)) ∙ w.w6;
    w8 = read-write_apart 4 2 m (a + 8) (a + 4) v (inr (omega arith)) ∙ w.w8;
    w12 = read-write_apart 4 2 m (a + 12) (a + 4) v (inr (omega arith)) ∙ w.w12;
  }

  pub write_6-Words : Words (write 2 m (a + 6) v) a o1 sel bits (v % 2 ^ 16) o3 r2
  write_6-Words = record {
    w0 = read-write_apart 2 2 m a (a + 6) v (inl (omega arith)) ∙ w.w0;
    w2 = read-write_apart 2 2 m (a + 2) (a + 6) v (inl (omega arith)) ∙ w.w2;
    w4 = read-write_apart 2 2 m (a + 4) (a + 6) v (inl (omega arith)) ∙ w.w4;
    w6 = read-write 2 m (a + 6) v;
    w8 = read-write_apart 4 2 m (a + 8) (a + 6) v (inr (omega arith)) ∙ w.w8;
    w12 = read-write_apart 4 2 m (a + 12) (a + 6) v (inr (omega arith)) ∙ w.w12;
  }

  pub write_8-Words : Words (write 4 m (a + 8) v) a o1 sel bits o2 (v % 2 ^ 32) r2
  write_8-Words = record {
    w0 = read-write_apart 2 4 m a (a + 8) v (inl (omega arith)) ∙ w.w0;
    w2 = read-write_apart 2 4 m (a + 2) (a + 8) v (inl (omega arith)) ∙ w.w2;
    w4 = read-write_apart 2 4 m (a + 4) (a + 8) v (inl (omega arith)) ∙ w.w4;
    w6 = read-write_apart 2 4 m (a + 6) (a + 8) v (inl (omega arith)) ∙ w.w6;
    w8 = read-write 4 m (a + 8) v;
    w12 = read-write_apart 4 4 m (a + 12) (a + 8) v (inr (omega arith)) ∙ w.w12;
  }

-- A descriptor that shares no byte with a store stays.
pub desc_at_cong :
    (m k : Mem) (a : ℕ) → ((i : ℕ) → i < 16 → m (a + i) ≡ k (a + i)) → desc_at m a ≡ desc_at k a
desc_at_cong m k a same =
    rw
      (
        read_cong 2 m k a (λ i p. same i (omega arith)),
        word 2 2 (omega arith),
        word 2 4 (omega arith),
        word 2 6 (omega arith),
        word 4 8 (omega arith),
        word 4 12 (omega arith),
      )
      refl
  where
    word : (n off : ℕ) → off + n ≤ 16 → read n m (a + off) ≡ read n k (a + off)
    word n off h = read_cong n m k (a + off) λ i p. ground (arith, same (off + i))
