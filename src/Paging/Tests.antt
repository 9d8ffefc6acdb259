-- ===== src/Paging/Tests.antt =====
-- The theorems about `map_addr` at the call that the kernel makes for the local APIC:
-- bootloader/delice_pxe/src/init.cc maps 0x13370000000 to 0xfee00000.
use deliceos.Base.{◌≡◌, some, true, false, arith, refl}
use deliceos.Memory.{Mem}
use deliceos.Paging.{first_pml4_base, map_addr}
use deliceos.Paging.Walk.{walk}
use deliceos.Paging.Map.{map_addr_translates}
use deliceos.Paging.Alias.{map_addr_aliases}

abbrev blank : Mem
blank x = 0

-- The end-of-interrupt register of the APIC, as `apic_write` reaches it.
map_addr_translates_example :
    walk (map_addr blank 0x13370000000 0xfee00000 19) first_pml4_base 0x133700000b0
    ≡ some (record { phys = 0xfee000b0; writable = true; uncached = true })
map_addr_translates_example =
    map_addr_translates blank 0x13370000000 0x133700000b0 0x7f7 19 (omega arith) (omega arith) refl
      (omega arith)

map_addr_aliases_example :
    walk
      (map_addr (map_addr blank 0x13370000000 0xfee00000 19) 0x3370000000 0x400000 3)
      first_pml4_base
      0x13370000000
    ≡ some (record { phys = 0x400000; writable = true; uncached = false })
map_addr_aliases_example =
    map_addr_aliases blank 0x13370000000 0xfee00000 19 0x3370000000 2 3 (omega arith) (omega arith)
      refl (omega arith)
