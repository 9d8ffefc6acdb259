-- ===== src/Apic/Firmware.antt =====
-- A test of `Apic::init` of bootloader/delice_pxe/src/apic.cc on small firmware tables.
use deliceos.Base.{
  ℕ, zero, suc, ◌+◌, ◌*◌, ◌<◌, ◌≡◌, inl, refl, arith, ◌==◌, if◌then◌else◌, some, List, [], ◌∷◌,
}
use deliceos.Memory.{Mem}
use deliceos.Memory.Cells.{read}
use deliceos.Apic.{apic_signature, init}
use deliceos.Apic.Compare.{Same}
use deliceos.Apic.Rsdp.{Signed, signed_at}
use deliceos.Apic.Records.{listed, Elsewhere}
use deliceos.Apic.Tables.{together, Located, Tables, init-Records}

-- The extended BIOS data area is at 0x9fc00 and begins with the RSDP. The RSDT is at 0x20000 and
-- names one table, the MADT at 0x30000, with the processor 2. The walk also takes the bytes behind the
-- table, which are read as a structure of another type.
abbrev firmware : Mem
firmware a =
    if a == 0x40e
    then 0xc0
    else if a == 0x40f
    then 0x9f
    else if a == 0x9fc00
    then 0x52
    else if a == 0x9fc01
    then 0x53
    else if a == 0x9fc02
    then 0x44
    else if a == 0x9fc03
    then 0x20
    else if a == 0x9fc04
    then 0x50
    else if a == 0x9fc05
    then 0x54
    else if a == 0x9fc06
    then 0x52
    else if a == 0x9fc07
    then 0x20
    else if a == 0x9fc12
    then 0x02
    else if a == 0x20004
    then 40
    else if a == 0x20026
    then 0x03
    else if a == 0x30000
    then 0x41
    else if a == 0x30001
    then 0x50
    else if a == 0x30002
    then 0x49
    else if a == 0x30003
    then 0x43
    else if a == 0x30004
    then 52
    else if a == 0x3002d
    then 8
    else if a == 0x3002e
    then 2
    else if a == 0x30034
    then 1
    else if a == 0x30035
    then 8
    else 0

firmware_byte : (a : ℕ) → firmware a < 256
firmware_byte a = ground arith

rsdp_Signed : Signed firmware (0x9fc00 + 16 * 0)
rsdp_Signed zero h = refl
rsdp_Signed (suc zero) h = refl
rsdp_Signed (suc (suc zero)) h = refl
rsdp_Signed (suc (suc (suc zero))) h = refl
rsdp_Signed (suc (suc (suc (suc zero)))) h = refl
rsdp_Signed (suc (suc (suc (suc (suc zero))))) h = refl
rsdp_Signed (suc (suc (suc (suc (suc (suc zero)))))) h = refl
rsdp_Signed (suc (suc (suc (suc (suc (suc (suc zero))))))) h = refl
rsdp_Signed (suc (suc (suc (suc (suc (suc (suc (suc k)))))))) h = absurd (omega arith)

madt_Same : Same firmware 0x30000 apic_signature 0 4
madt_Same zero h = refl
madt_Same (suc zero) h = refl
madt_Same (suc (suc zero)) h = refl
madt_Same (suc (suc (suc zero))) h = refl
madt_Same (suc (suc (suc (suc k)))) h = absurd (omega arith)

firmware-Located : Located firmware 0x9fc00
unfolding read
firmware-Located = inl (signed_at 0 refl (omega arith) rsdp_Signed λ j h. absurd (omega arith))

abbrev structures : List (List (ℕ × ℕ))
structures = ((0, 2) ∷ (1, 0) ∷ []) ∷ []

firmware-Tables : Tables 0x5000 firmware 0x20024 0 structures
unfolding read
firmware-Tables = (
  (omega arith, inl (madt_Same, (omega arith, refl, refl, (omega arith, refl, refl, omega arith)))),
  tt,
)

init-Records_example :
    (m' : Mem) × (init 0x5000 2 firmware ≡ some m')
    × ((i : ℕ)
        → m' (0x5000 + i) ≡ (if listed i (together structures) then i else firmware (0x5000 + i)))
    × ((x : ℕ) → Elsewhere 0x5000 x → m' x ≡ firmware x)
unfolding read
init-Records_example =
    init-Records 0x5000 2 firmware 0x9fc00 structures firmware_byte firmware-Located (omega arith)
      (omega arith) firmware-Tables (omega arith)
