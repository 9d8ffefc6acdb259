-- ===== src/Machine/Io.antt =====
-- Port input and output: bootloader/delice_pxe/includes/misc/io.h.
use deliceos.Base.{ℕ, ◌∷◌, u8, u16}
use deliceos.Machine.{Hardware, Cmd, ok, issue, out_port, in_port}

-- The operands are the bit patterns of an `int16_t` and an `int8_t`.
abbrev pub outb : ℕ → ℕ → Cmd (Unit {0})
outb port val = issue (out_port (u16 port) (u8 val))

abbrev pub inb : Hardware → ℕ → Cmd ℕ
inb hw port s =
    ok (u8 (hw.on_in s.trace (u16 port))) (record s { trace = in_port (u16 port) ∷ s.trace })
