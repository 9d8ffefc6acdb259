-- ===== src/Init/Objects.antt =====
-- The lock of `printf` and the serial devices in memory, while `start_kernel` of
-- bootloader/delice_pxe/src/init.cc stores to the interrupt table and to the list of the processors.
use deliceos.Base.{
  ℕ, zero, suc, ◌+◌, ◌*◌, ◌^◌, ◌<◌, ◌≤◌, ◌≡◌, ◌⊎◌, inl, inr, refl, sym, ap, ◌∙◌, subst, arith, List,
  [], ◌∷◌, length, some,
}
use mathlib.Core.Path.{ap₂}
use deliceos.Memory.{Mem}
use deliceos.Memory.Cells.{read, write, read-write, read-write_apart, read_cong, write-Outside}
use deliceos.Machine.{Event, Machine, ok, load_idtr, sti, ◌>>◌}
use deliceos.Serial.{ComDevices}
use deliceos.Console.{Console}
use deliceos.Interrupt.Table.{fill, set_idt, load_idt}
use deliceos.Interrupt.Table.Load.{load_idt_runs}
use deliceos.Apic
use deliceos.Init.{Places, put_devices, devices_at, put_console, console_at, in_memory, apic_init}
use deliceos.Cpu.{enable_interrupt}
use deliceos.Init.Effects.{Ready}

-- Every port fits in 16 bits.
abbrev pub Words : ComDevices → Type 0
Words [] = Unit {0}
Words (dev ∷ devs) = (dev < 2 ^ 16) × Words devs

-- The memory with the lock and the devices of `c`, and the interrupt table, in it.
abbrev pub prepared : Places → Console → Mem → Mem
prepared places c m = set_idt places.idt places.interrupt_desc_table (
    fill places.ex_handlers places.default_trap_handler places.interrupt_desc_table
      (put_console places c m))

-- The bytes of the lock, its pointer to the formatter included, and of `n` devices.
abbrev pub Object : Places → ℕ → ℕ → Type 0
Object places n x =
    ((places.spin ≤ x) × (x < places.spin + 16))
    ⊎ ((places.comdevices ≤ x) × (x < places.comdevices + 2 * n))

-- Whatever the counters of the lock, the search for the processors ends in the memory with the
-- interrupt table, with `search` as the memory that it leaves, and neither it nor the interrupt table
-- changes a byte of the lock or of the devices.
pub record Searches (fuel : ℕ) (places : Places) (devices : ComDevices) (m : Mem)
    (search : Console → Mem) : Type 0 where
  pub words : Words devices
  pub table_word : places.interrupt_desc_table < 2 ^ 64
  pub apart :
      (places.spin + 16 ≤ places.comdevices)
      ⊎ (places.comdevices + 2 * length devices ≤ places.spin)
  pub found :
      (c : Console)
      → c.devices ≡ devices
      → Apic.init places.cpu_nodes fuel (prepared places c m) ≡ some (search c)
  pub spares :
      (c : Console) (x : ℕ)
      → c.devices ≡ devices
      → Object places (length devices) x
      → search c x ≡ put_console places c m x

pub put_devices_outside :
    (a : ℕ) (devs : ComDevices) (m : Mem) (x : ℕ)
    → (x < a) ⊎ (a + 2 * length devs ≤ x)
    → put_devices a devs m x ≡ m x
unfolding put_devices
put_devices_outside a [] m x out = refl
put_devices_outside a (dev ∷ devs) m x out =
    put_devices_outside (a + 2) devs (write 2 m a dev) x (ground arith)
    ∙ write-Outside 2 m a dev x (ground arith)

devices_at_cong :
    (a n : ℕ) (m m' : Mem)
    → ((x : ℕ) → a ≤ x → x < a + 2 * n → m x ≡ m' x)
    → devices_at a n m ≡ devices_at a n m'
unfolding devices_at
devices_at_cong a zero m m' same = refl
devices_at_cong a (suc n) m m' same =
    ap₂ ◌∷◌ (read_cong 2 m m' a (λ i h. same (a + i) (omega arith) (omega arith)))
      (devices_at_cong (a + 2) n m m' λ x from to. same x (omega arith) (omega arith))

devices_at-put_devices :
    (a : ℕ) (devs : ComDevices) (m : Mem)
    → Words devs
    → devices_at a (length devs) (put_devices a devs m) ≡ devs
unfolding devices_at put_devices
devices_at-put_devices a [] m words = refl
devices_at-put_devices a (dev ∷ devs) m (small, words) =
    ap₂ ◌∷◌
      (read_cong 2 (put_devices (a + 2) devs (write 2 m a dev)) (write 2 m a dev) a
          (λ i h. put_devices_outside (a + 2) devs (write 2 m a dev) (a + i) (inl (omega arith)))
        ∙ omega (arith, read-write 2 m a dev))
      (devices_at-put_devices (a + 2) devs (write 2 m a dev) words)

apic_init-found :
    (cpu_nodes fuel : ℕ) (s : Machine) (m : Mem)
    → Apic.init cpu_nodes fuel s.mem ≡ some m
    → apic_init cpu_nodes fuel s ≡ ok tt (record s { mem = m })
apic_init-found cpu_nodes fuel s m found = rw (found, apic_init)

module _ (fuel : ℕ) (places : Places) (devices : ComDevices) (m : Mem) (search : Console → Mem)
    (se : Searches fuel places devices m search) (c : Console) (ready : Ready devices c) where
  abbrev counters : Mem
  counters = write 4 (write 4 m places.spin c.acquire) (places.spin + 4) c.release

  -- A word of the lock.
  counter :
      (a v : ℕ)
      → places.spin ≤ a
      → a + 4 ≤ places.spin + 16
      → read 4 counters a ≡ v
      → read 4 (search c) a ≡ v
  unfolding put_console
  counter a v from to is =
      read_cong 4 (search c) (put_console places c m) a
        (λ i h. se.spares c (a + i) ready.same (inl (omega arith, omega arith)))
      ∙ read_cong 4 (put_console places c m) counters a (λ i h.
        put_devices_outside places.comdevices c.devices counters (a + i)
          (ground (arith, se.apart, ap length ready.same)))
      ∙ is

  pub console_at-search : console_at places (length c.devices) (search c) ≡ c
  unfolding console_at put_console
  console_at-search =
      rw
        (
          counter places.spin c.acquire (omega arith) (omega arith) (
              read-write_apart 4 4 (write 4 m places.spin c.acquire) places.spin (places.spin + 4)
                c.release (inl (omega arith))
              ∙ omega (arith, read-write 4 m places.spin c.acquire, ready.word)),
          counter (places.spin + 4) c.release (omega arith) (omega arith) (
              omega (
                arith,
                read-write 4 (write 4 m places.spin c.acquire) (places.spin + 4) c.release,
                ready.word,
                ready.free,
              )),
          devs,
        )
        refl
    where
      devs : devices_at places.comdevices (length c.devices) (search c) ≡ c.devices
      devs =
          devices_at_cong places.comdevices (length c.devices) (search c) (put_console places c m)
            (λ x from to.
              se.spares c x ready.same (inr (from, omega (arith, to, ap length ready.same))))
          ∙ devices_at-put_devices places.comdevices c.devices counters
              (subst Words (sym ready.same) se.words)

  -- From the interrupt table to the search, with the lock and the devices in memory.
  pub in_memory_runs :
      (trace : List Event)
      → in_memory places c
          (load_idt places.ex_handlers places.default_trap_handler places.interrupt_desc_table
              places.idt
            >> (enable_interrupt >> apic_init places.cpu_nodes fuel))
          (record { mem = m; trace = trace })
        ≡ ok c (record {
          mem = search c;
          trace = sti ∷ load_idtr 4079 places.interrupt_desc_table ∷ trace;
        })
  in_memory_runs trace =
      rw
        (
          load_idt_runs places.ex_handlers places.default_trap_handler places.interrupt_desc_table
              places.idt (record { mem = put_console places c m; trace = trace }) se.table_word,
          apic_init-found places.cpu_nodes fuel
              (record {
                mem = prepared places c m;
                trace = sti ∷ load_idtr 4079 places.interrupt_desc_table ∷ trace;
              })
              (search c) (se.found c ready.same),
          console_at-search,
        )
        refl
