-- ===== src/Init/Sample.antt =====
-- A sample of where the global data stand, in which the search for the processors finds nothing: no
-- code of the repository is modelled here.
use deliceos.Base.{
  ℕ, zero, suc, ◌+◌, ◌*◌, ◌%◌, ◌<◌, ◌≤◌, ◌≡◌, ◌⊎◌, inl, inr, ap, ◌∙◌, List, [], ◌∷◌, length, arith,
}
use deliceos.Memory.{Mem, memset}
use deliceos.Memory.Fill.{memset_fills}
use deliceos.Memory.Cells.{read, write, write_byte, write-Outside}
use deliceos.Samples.{one_port}
use deliceos.Serial.{ComDevices}
use deliceos.Console.{Console, Formatter}
use deliceos.Interrupt.{trap_gate}
use deliceos.Interrupt.Table.{assign, set_interrupt_gate, set_gates, fill, set_idt}
use deliceos.Interrupt.Table.Gate.{fill-refines}
use deliceos.Interrupt.Table.Load.{set_idt-Outside}
use deliceos.Samples
use deliceos.Apic.Discover.{Unsigned, init-Unsigned}
use deliceos.Init.{Places, put_devices, put_console}
use deliceos.Init.Objects.{Words, Searches, prepared, put_devices_outside}

abbrev pub places : Places
places = record {
  cpu_nodes = 0x62000;
  buf = 0x40000;
  interrupt_desc_table = 0x60000;
  idt = 0x61000;
  spin = 0x62020;
  comdevices = 0x62040;
  ex_handlers = λ v. 0x70000 + 16 * v;
  default_trap_handler = 0x80000;
}

-- It prints the last digit of the first argument.
abbrev pub one_digit : Formatter
one_digit call = (digit call.args, 2)
  where
    digit : List ℕ → List ℕ
    digit [] = 0 ∷ []
    digit (n ∷ ns) = (0x30 + n % 10) ∷ 0x0a ∷ 0 ∷ []

abbrev IsBytes : Mem → Type 0
IsBytes m = (x : ℕ) → m x < 256

memset-IsBytes : (m : Mem) (a size : ℕ) → IsBytes m → IsBytes (memset m a 0 size)
memset-IsBytes m a size bytes x = ground (arith, memset_fills m a 0 size x, bytes x)

gate-IsBytes :
    (m : Mem) (table vector type handler : ℕ)
    → IsBytes m
    → IsBytes (set_interrupt_gate m table vector type handler)
unfolding set_interrupt_gate assign
gate-IsBytes m table vector type handler bytes = write_byte 4 _ _ _ (
    write_byte 2 _ _ _ (
      write_byte 2 _ _ _ (
        write_byte 2 _ _ _ (
          write_byte 2 _ _ _ (
            write_byte 2 _ _ _
              (write_byte 2 _ _ _ (write_byte 2 _ _ _ (memset-IsBytes m _ 16 bytes))))))))

set_gates-IsBytes :
    (left ii type : ℕ) (handler : ℕ → ℕ) (table : ℕ) (m : Mem)
    → IsBytes m
    → IsBytes (set_gates left ii type handler table m)
unfolding set_gates
set_gates-IsBytes zero ii type handler table m bytes = bytes
set_gates-IsBytes (suc left) ii type handler table m bytes =
    set_gates-IsBytes left (ii + 1) type handler table _
      (gate-IsBytes m table ii type (handler ii) bytes)

put_devices-IsBytes :
    (a : ℕ) (devs : ComDevices) (m : Mem) → IsBytes m → IsBytes (put_devices a devs m)
unfolding put_devices
put_devices-IsBytes a [] m bytes = bytes
put_devices-IsBytes a (dev ∷ devs) m bytes =
    put_devices-IsBytes (a + 2) devs (write 2 m a dev) (write_byte 2 m a dev bytes)

prepared-IsBytes : (c : Console) (m : Mem) → IsBytes m → IsBytes (prepared places c m)
unfolding set_idt fill put_console
prepared-IsBytes c m bytes = write_byte 8 _ _ _ (
    write_byte 2 _ _ _ (
      set_gates-IsBytes 224 32 trap_gate _ _ _ (
        set_gates-IsBytes 32 0 _ _ _ _
          (put_devices-IsBytes _ c.devices _ (write_byte 4 _ _ _ (write_byte 4 _ _ _ bytes))))))

-- The interrupt table changes no byte from its structure for `lidt` on, and none before it.
table-Outside :
    (c : Console) (m : Mem) (x : ℕ)
    → (x < 0x60000) ⊎ (0x62000 ≤ x)
    → prepared places c m x ≡ put_console places c m x
table-Outside c m x out =
    set_idt-Outside places.idt places.interrupt_desc_table _ x (ground arith)
    ∙ (fill-refines places.ex_handlers places.default_trap_handler places.interrupt_desc_table
          (put_console places c m) Samples.start).1
        x (ground arith)

pub prepared-Outside :
    (c : Console) (m : Mem) (x : ℕ)
    → length c.devices ≤ 4
    → (x < 0x60000) ⊎ (0x63000 ≤ x)
    → prepared places c m x ≡ m x
unfolding put_console
prepared-Outside c m x few out =
    table-Outside c m x (ground arith)
    ∙ put_devices_outside places.comdevices c.devices _ x (ground arith)
    ∙ write-Outside 4 (write 4 m places.spin c.acquire) (places.spin + 4) c.release x (ground arith)
    ∙ write-Outside 4 m places.spin c.acquire x (ground arith)

module _ (devices : ComDevices) (m : Mem) (few : length devices ≤ 4) (bytes : (x : ℕ) → m x < 256)
    (same : (x : ℕ) → (x < 0x7e00) ⊎ (0x80000 ≤ x) → m x ≡ one_port x) where
  nothing_there :
      (c : Console) (low high : ℕ)
      → c.devices ≡ devices
      → (high ≤ 0x400) ⊎ (0x80000 ≤ low)
      → Unsigned (prepared places c m) low high
  nothing_there c low high e h j less is = absurd (
      ground (
        arith,
        is 0,
        prepared-Outside c m (low + 16 * j + 0) (omega (arith, few, ap length e)) (ground arith),
        same (low + 16 * j + 0),
      ))

  byte_is :
      (c : Console) (x : ℕ) → c.devices ≡ devices → x < 0x7e00 → prepared places c m x ≡ one_port x
  byte_is c x e low =
      prepared-Outside c m x (omega (arith, few, ap length e)) (inl (omega arith))
      ∙ same x (inl low)

  -- With no signature in either range the search leaves the memory as it is.
  pub nothing-Searches :
      (fuel : ℕ) → Words devices → Searches fuel places devices m (λ c. prepared places c m)
  unfolding read
  nothing-Searches fuel words = record {
    words = words;
    table_word = omega arith;
    apart = inl (omega arith);
    found = λ c e.
        init-Unsigned places.cpu_nodes fuel (prepared places c m) (prepared-IsBytes c m bytes)
          (nothing_there c _ _ e
            (inl (omega (arith, byte_is c 0x40e e (omega arith), byte_is c 0x40f e (omega arith)))))
          (nothing_there c 0xe0000 0x100000 e (inr (omega arith)));
    spares = λ c x e at. table-Outside c m x (ground arith);
  }
