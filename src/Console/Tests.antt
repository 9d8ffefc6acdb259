-- ===== src/Console/Tests.antt =====
-- The theorems about `printf` with a formatter that prints "A" and a line feed:
-- bootloader/delice_pxe/src/printf.cc.
use deliceos.Base.{◌≡◌, refl, [], ◌∷◌}
use deliceos.Samples.{start, idle_line, idle_line-Answers}
use deliceos.Serial.Write.{to_devices}
use deliceos.Console.{Console, Call, Formatter, printf}
use deliceos.Console.Prints.{Prints, to_console, printf-Prints}

abbrev letter : Formatter
letter call = (0x41 ∷ 0x0a ∷ 0 ∷ [], 2)

abbrev fresh : Console
fresh = record { devices = 0x3f8 ∷ []; acquire = 7; release = 7 }

abbrev message : Call
message = record { format = "A\n"; args = [] }

printf-Prints_example :
    Prints
      (to_console fresh.devices (0x41 ∷ 0x0a ∷ 0 ∷ []))
      2
      fresh
      start
      (printf idle_line 1 letter fresh message start)
printf-Prints_example = printf-Prints idle_line 1 idle_line-Answers letter fresh message start refl

sent_bytes :
    to_console fresh.devices (0x41 ∷ 0x0a ∷ 0 ∷ [])
    ≡ (0x3f8, 0x41) ∷ (0x3f8, 0x0d) ∷ (0x3f8, 0x0a) ∷ []
unfolding to_console to_devices
sent_bytes = refl
