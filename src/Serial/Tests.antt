-- ===== src/Serial/Tests.antt =====
-- The theorems about the serial ports at a machine with one port: bootloader/delice_pxe/src/serial.cc.
use deliceos.Base.{◌≡◌, refl, [], ◌∷◌}
use deliceos.Samples.{one_port, start, idle_line, idle_line-Answers}
use deliceos.Memory.Cells.{read}
use deliceos.Serial.{comdevices, write}
use deliceos.Serial.Init.{ports}
use deliceos.Serial.Write.{Sends, to_devices, write-Sends}

one_device : ports one_port 0 comdevices ≡ 0x3f8 ∷ 0 ∷ 0 ∷ 0 ∷ []
unfolding ports read
one_device = refl

write-Sends_example :
    Sends (to_devices 0x0a (0x3f8 ∷ 0 ∷ [])) start (write idle_line 1 (0x3f8 ∷ 0 ∷ []) 0x0a start)
write-Sends_example = write-Sends idle_line 1 (0x3f8 ∷ 0 ∷ []) 0x0a start idle_line-Answers

-- A line feed writes a carriage return to port 0 for the absent device.
line_feed : to_devices 0x0a (0x3f8 ∷ 0 ∷ []) ≡ (0x3f8, 0x0d) ∷ (0x3f8, 0x0a) ∷ (0, 0x0d) ∷ []
unfolding to_devices
line_feed = refl
