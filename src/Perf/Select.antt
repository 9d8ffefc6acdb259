-- ===== src/Perf/Select.antt =====
-- The event select register that bootloader/delice_pxe/src/perfctr.cc writes.
use deliceos.Base.{ℕ, ◌/◌, ◌%◌, ◌^◌, ◌<◌, ◌≡◌, arith}
use deliceos.Perf.{PerfSelect, bits}

-- The fields of the register IA32_PERFEVTSELx at the positions that the processor documents (Intel
-- SDM, volume 3, architectural performance monitoring).
pub documented : ℕ → PerfSelect
documented v = record {
  event = v % 2 ^ 8;
  umask = v / 2 ^ 8 % 2 ^ 8;
  usr = v / 2 ^ 16 % 2;
  os = v / 2 ^ 17 % 2;
  edge = v / 2 ^ 18 % 2;
  pinctrl = v / 2 ^ 19 % 2;
  interrupt = v / 2 ^ 20 % 2;
  reserved = v / 2 ^ 21 % 2;
  enable = v / 2 ^ 22 % 2;
  inverter = v / 2 ^ 23 % 2;
  counter_mask = v / 2 ^ 24 % 2 ^ 8;
}

pub record Fits (f : PerfSelect) : Type 0 where
  pub event : f.event < 2 ^ 8
  pub umask : f.umask < 2 ^ 8
  pub usr : f.usr < 2
  pub os : f.os < 2
  pub edge : f.edge < 2
  pub pinctrl : f.pinctrl < 2
  pub interrupt : f.interrupt < 2
  pub reserved : f.reserved < 2
  pub enable : f.enable < 2
  pub inverter : f.inverter < 2
  pub counter_mask : f.counter_mask < 2 ^ 8

-- What the union's fields say, the processor reads back from its bits, for every choice of fields
-- that fit their widths; and the bits take no more than 32.
pub selected-bits : (f : PerfSelect) → Fits f → (documented (bits f) ≡ f) × (bits f < 2 ^ 32)
unfolding documented bits
selected-bits f h = (ground arith, omega arith)
