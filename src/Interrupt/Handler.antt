-- ===== src/Interrupt/Handler.antt =====
-- What `interrupt_handler` of bootloader/delice_pxe/src/interrupt.cc does on each vector.
use deliceos.Cpu.Frame.{frame_at}
use deliceos.Base.{
  ℕ, ◌≡◌, ◌≢◌, refl, ap, ◌∙◌, List, ◌∷◌, ◌++◌, if◌then◌else◌, ◌⊎◌, inl, inr, true, false, ◌==◌,
  arith, Bool-cases,
}
use deliceos.Machine.{Event, Hardware, Machine, Run, ok, hang, out_of_fuel, mmio_store}
use deliceos.Cpu.{apic_addr}
use mathlib.Core.List.{append_assoc, reverse, reverse-append}
use deliceos.Serial.Write.{outputs, others, Answers}
use deliceos.Console.{Console, Call, Formatter}
use deliceos.Console.Prints.{IsFree, to_console, printf-Prints, printf-held}
use deliceos.Interrupt.{
  interrupt_handler, dispatch, report_and_stay, page_fault, gp_fault, pmi_vec, greeting,
  page_fault_message, gp_fault_message, pmi_message,
}

-- The handler returns the address of the saved registers with the lock free, and besides port
-- input and output exactly one instruction was issued: the write of 0 to the end-of-interrupt
-- register.
pub record Ends (state : ℕ) (s : Machine) (r : Run (ℕ × Console)) : Type 0 where
  pub console : Console
  pub trace : List Event
  pub returns : r ≡ ok (state, console) (record s { trace = trace })
  pub free : IsFree console
  pub acknowledged : others trace ≡ mmio_store (apic_addr 0xb0) 0 ∷ others s.trace

-- The handler stays in a loop, `new` are the port writes, and nothing else but port input was issued.
pub record Stays (new : List (ℕ × ℕ)) (s : Machine) (r : Run (ℕ × Console)) : Type 0 where
  pub trace : List Event
  pub stays : r ≡ hang (record s { trace = trace })
  pub sends : outputs trace ≡ reverse new ++ outputs s.trace
  pub ports_only : others trace ≡ others s.trace

-- What a page fault, or else a general protection fault, is reported with.
abbrev pub fault_message : ℕ → ℕ → Call
fault_message vector error_code =
    if vector == page_fault then page_fault_message error_code else gp_fault_message

module _ (hw : Hardware) (fuel : ℕ) (answers : Answers hw fuel) (vsnprintf : Formatter) where
  report-Stays :
      (c : Console) (call : Call) (s : Machine)
      → IsFree c
      → Stays
          (to_console c.devices (vsnprintf call).0)
          s
          (report_and_stay hw fuel vsnprintf c call s)
  unfolding report_and_stay
  report-Stays c call s free =
      let said = printf-Prints hw fuel answers vsnprintf c call s free in
      rw said.returns (record {
        trace = said.trace;
        stays = refl;
        sends = said.sends;
        ports_only = said.ports_only;
      })

  dispatch-Ends :
      (c : Console) (vector error_code state : ℕ) (s : Machine)
      → IsFree c
      → vector ≢ page_fault
      → vector ≢ gp_fault
      → Ends state s (dispatch hw fuel vsnprintf c vector error_code state s)
  unfolding dispatch others
  dispatch-Ends c vector error_code state s free not_pf not_gp =
      let pf : (vector == page_fault) ≡ false = ground arith in
      let gp : (vector == gp_fault) ≡ false = ground arith in
      elim (Bool-cases (vector == pmi_vec)) [
        | inl pmi ↦
            let said = printf-Prints hw fuel answers vsnprintf c pmi_message s free in
            rw (pf, gp, pmi, said.returns)
              (record {
                console = said.console;
                trace = mmio_store (apic_addr 0xb0) 0 ∷ said.trace;
                returns = refl;
                free = said.free;
                acknowledged = ap (λ t. mmio_store (apic_addr 0xb0) 0 ∷ t) said.ports_only;
              })
        | inr other ↦
            rw (pf, gp, other)
              (record {
                console = c;
                trace = mmio_store (apic_addr 0xb0) 0 ∷ s.trace;
                returns = refl;
                free = free;
                acknowledged = refl;
              })
      ]

  dispatch-Stays :
      (c : Console) (vector error_code state : ℕ) (s : Machine)
      → IsFree c
      → (vector ≡ page_fault) ⊎ (vector ≡ gp_fault)
      → Stays
          (to_console c.devices (vsnprintf (fault_message vector error_code)).0)
          s
          (dispatch hw fuel vsnprintf c vector error_code state s)
  unfolding dispatch
  dispatch-Stays c vector error_code state s free (inl is) =
      let pf : (vector == page_fault) ≡ true = ground arith in
      rw pf (report-Stays c (page_fault_message error_code) s free)
  dispatch-Stays c vector error_code state s free (inr is) =
      let pf : (vector == page_fault) ≡ false = ground arith in
      let gp : (vector == gp_fault) ≡ true = ground arith in
      rw (pf, gp) (report-Stays c gp_fault_message s free)

  -- On every vector but the page fault and the general protection fault, with the lock of `printf`
  -- free and devices that answer, the handler returns the address of the saved registers, and
  -- acknowledges the interrupt exactly once.
  pub interrupt_handler-Ends :
      (c : Console) (vector frame error_code state : ℕ) (s : Machine)
      → IsFree c
      → vector ≢ page_fault
      → vector ≢ gp_fault
      → Ends state s (interrupt_handler hw fuel vsnprintf c vector frame error_code state s)
  unfolding interrupt_handler
  interrupt_handler-Ends c vector frame error_code state s free not_pf not_gp =
      let said =
        printf-Prints hw fuel answers vsnprintf c (greeting (frame_at s.mem frame).rip vector) s
          free in
      let rest =
        dispatch-Ends said.console vector error_code state (record s { trace = said.trace })
          said.free not_pf not_gp in
      rw said.returns (record {
        console = rest.console;
        trace = rest.trace;
        returns = rest.returns;
        free = rest.free;
        acknowledged =
            rest.acknowledged ∙ ap (λ t. mmio_store (apic_addr 0xb0) 0 ∷ t) said.ports_only;
      })

  -- On the page fault and on the general protection fault the handler reports, and then stays in
  -- its loop for ever without acknowledging the interrupt.
  pub interrupt_handler-Stays :
      (c : Console) (vector frame error_code state : ℕ) (s : Machine)
      → IsFree c
      → (vector ≡ page_fault) ⊎ (vector ≡ gp_fault)
      → Stays
          (to_console c.devices (vsnprintf (greeting (frame_at s.mem frame).rip vector)).0
            ++ to_console c.devices (vsnprintf (fault_message vector error_code)).0)
          s
          (interrupt_handler hw fuel vsnprintf c vector frame error_code state s)
  unfolding interrupt_handler
  interrupt_handler-Stays c vector frame error_code state s free fault =
      let said =
        printf-Prints hw fuel answers vsnprintf c (greeting (frame_at s.mem frame).rip vector) s
          free in
      let rest =
        dispatch-Stays said.console vector error_code state (record s { trace = said.trace })
          said.free fault in
      rw said.returns (record {
        trace = rest.trace;
        stays = rest.stays;
        sends =
            rest.sends
            ∙ rw (said.same_devices, said.sends) (rw (reverse-append, append_assoc) refl);
        ports_only = rest.ports_only ∙ said.ports_only;
      })

-- An interrupt of any vector that comes while the interrupted code holds the lock of `printf` is
-- never acknowledged: the handler waits for the lock, whatever the fuel.
pub interrupt_handler-held :
    (hw : Hardware) (fuel : ℕ) (vsnprintf : Formatter) (c : Console)
    (vector frame error_code state : ℕ) (s : Machine)
    → c.release ≢ c.acquire
    → interrupt_handler hw fuel vsnprintf c vector frame error_code state s ≡ out_of_fuel
unfolding interrupt_handler
interrupt_handler-held hw fuel vsnprintf c vector frame error_code state s held =
    rw (printf-held hw fuel vsnprintf c (greeting (frame_at s.mem frame).rip vector) s held) refl
