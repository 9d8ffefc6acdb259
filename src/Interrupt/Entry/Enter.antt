-- ===== src/Interrupt/Entry/Enter.antt =====
-- The entry points of bootloader/delice_pxe/src/interrupt.s up to the call of the handler: what is
-- saved where, and what the handler is called with.
use deliceos.Base.{
  ℕ, ◌+◌, ◌*◌, ◌%◌, ◌^◌, ◌<◌, ◌≡◌, refl, sym, ap, ◌∙◌, subst, arith, List, [], ◌∷◌, ◌++◌, map, Bool,
  true, false, length, u32, u64, if◌then◌else◌,
}
use deliceos.Memory.{Mem}
use deliceos.Memory.Cells.{read}
use deliceos.Machine
use deliceos.Machine.{Machine}
use deliceos.Interrupt.Entry.{
  Reg, rax, rcx, rdx, rbx, rsp, rbp, rsi, rdi, r8, r9, r10, r11, r12, r13, r14, r15, ds, es, fs, gs,
  Instr, load, mov, lea, Core, push_word, step, exec, exception_entry, exception_entry_error_code,
  has_error_code, exception_handler, entry_vector, same,
}
use deliceos.Interrupt.Entry.Stack.{
  Stacked, Holds, push_word-Holds, push_keeps, save_registers, save_segments, push_segments,
}
use deliceos.Interrupt.Entry.Interrupted.{
  saved, saved_registers, saved_segments, has_error_code_lem, Pushed, Interrupted,
}
use deliceos.Cpu.Frame.{registers_at}
use deliceos.Interrupt.Entry.Layout.{registers_at-saved}

read-half : (m : Mem) (a : ℕ) → ((x : ℕ) → m x < 256) → read 4 m a ≡ u32 (read 8 m a)
unfolding read
read-half m a bytes =
    omega (arith, bytes a, bytes (a + 1), bytes (a + 1 + 1), bytes (a + 1 + 1 + 1))

pub Stacked-drop :
    (m : Mem) (vs ws : List ℕ) (a : ℕ) → Stacked m a (vs ++ ws) → Stacked m (a + 8 * length vs) ws
Stacked-drop m [] ws a h = subst (λ x. Stacked m x ws) (omega arith) h
Stacked-drop m (v ∷ vs) ws a h =
    subst (λ x. Stacked m x ws) (omega arith) (Stacked-drop m vs ws (a + 8) h.1)

exec-append : (is js : List Instr) (c : Core) → exec (is ++ js) c ≡ exec js (exec is c)
unfolding exec
exec-append [] js c = refl
exec-append (i ∷ is) js c = exec-append is js (step i c)

abbrev masked : Machine → Machine
masked s = record s { trace = Machine.cli ∷ s.trace }

module _ (vector code state : ℕ) (c : Core) (i : Interrupted vector code state c) where
  abbrev started : Core
  started = record c { machine = masked c.machine }

  -- Before the number of the exception is pushed.
  code-Pushed :
      (b : Bool)
      → Pushed b (state + 168) code c
      → (c1 : Core) × (exec
            (if b then exception_entry_error_code vector else exception_entry vector)
            c
          ≡ push_word vector c1)
        × Holds (state + 168) (masked c.machine) c.segments c1 (state + 160) (code ∷ [])
        × ((r : Reg) → same rsp r ≡ false → c1.regs r ≡ c.regs r)
  unfolding exec step
  code-Pushed true (at, is) = (
    started,
    refl,
    record {
      at = omega (arith, at);
      stack = (ap (read 8 c.machine.mem) (omega (arith, at)) ∙ is, tt);
      bytes = i.bytes;
      trace = refl;
      above = λ x over. refl;
      selectors = λ g. refl;
    },
    λ r other. refl,
  )
  code-Pushed false (at, is) = (
    push_word 0 started,
    refl,
    subst
        (λ w.
          Holds (state + 168) (masked c.machine) c.segments (push_word 0 started) (state + 160)
            (w ∷ []))
        (sym is)
        (push_word-Holds (state + 168) (masked c.machine) c.segments (omega (arith, i.few)) started
          (state + 168) (state + 160) 0 [] (omega arith) (omega arith) (omega arith)
          (record {
            at = at;
            stack = tt;
            bytes = i.bytes;
            trace = refl;
            above = λ x over. refl;
            selectors = λ g. refl;
          })),
    λ r other. push_keeps started 0 r other,
  )

  -- The registers and the selectors are saved, above the number of the exception and the error code.
  pub all_saved :
      (c' : Core) × (exec (exception_handler vector ++ entry_vector) c
        ≡ exec (load rdi 152 ∷ load rdx 160 ∷ mov rcx rsp ∷ lea rsi 168 ∷ []) c')
      × Holds (state + 168) (masked c.machine) c.segments c' state (saved c vector code)
  all_saved =
      let (c1, runs, h1, kept1) =
        code-Pushed (has_error_code vector)
          (subst (λ b. Pushed b (state + 168) code c) (sym (has_error_code_lem vector)) i.pushed) in
      let top_few : state + 168 < 2 ^ 64 = omega (arith, i.few) in
      let h2 =
        push_word-Holds (state + 168) (masked c.machine) c.segments top_few c1 (state + 160)
          (state + 152) vector (code ∷ []) (omega arith) (omega arith) (omega (arith, i.exception))
          h1 in
      let (c3, runs3, leaves) =
        save_registers (state + 168) (masked c.machine) c.segments top_few c.regs i.words
          (rax ∷ rbx ∷ rcx ∷ rdx ∷ rsi ∷ rdi ∷ rbp ∷ r15 ∷ r14 ∷ r13 ∷ r12 ∷ r11 ∷ r10 ∷ r9 ∷ r8
            ∷ [])
          (push_word vector c1) (state + 152) (state + 32) (vector ∷ code ∷ [])
          (push_segments (gs ∷ fs ∷ es ∷ ds ∷ [])
            ++ (load rdi 152 ∷ load rdx 160 ∷ mov rcx rsp ∷ lea rsi 168 ∷ []))
          (omega arith) (omega arith)
          (
            refl,
            (
              refl,
              (
                refl,
                (
                  refl,
                  (
                    refl,
                    (
                      refl,
                      (refl, (refl, (refl, (refl, (refl, (refl, (refl, (refl, (refl, tt))))))))),
                    ),
                  ),
                ),
              ),
            ),
          )
          (λ r other. push_keeps c1 vector r other ∙ kept1 r other) h2 in
      let (c4, runs4, h4) =
        save_segments (state + 168) (masked c.machine) c.segments top_few i.selectors
          (gs ∷ fs ∷ es ∷ ds ∷ []) c3 (state + 32) state _
          (load rdi 152 ∷ load rdx 160 ∷ mov rcx rsp ∷ lea rsi 168 ∷ []) (omega arith) (omega arith)
          leaves.holds in
      (
        c4,
        exec-append (exception_handler vector) entry_vector c
            ∙ ap (exec entry_vector) runs
            ∙ runs3
            ∙ runs4,
        h4,
      )

-- What the handler is called with, and what is on the stack then.
pub record Enters (vector code state : ℕ) (c c' : Core) : Type 0 where
  pub vector_is : c'.regs rdi ≡ vector
  pub frame_is : c'.regs rsi ≡ state + 168
  pub code_is : c'.regs rdx ≡ u32 code
  pub state_is : c'.regs rcx ≡ state
  pub aligned : (state + 208) % 16 ≡ 0 → c'.regs rsp % 16 ≡ 0
  pub layout : registers_at c'.machine.mem (c'.regs rcx) ≡ record {
    r8 = c.segments ds;
    r9 = c.segments es;
    r10 = c.segments fs;
    r11 = c.segments gs;
    r12 = c.regs r8;
    r13 = c.regs r9;
    r14 = c.regs r10;
    r15 = c.regs r11;
    rbp = c.regs r12;
    rsi = c.regs r13;
    rdi = c.regs r14;
    rdx = c.regs r15;
    rcx = c.regs rbp;
    rbx = c.regs rdi;
    rax = c.regs rsi;
  }
  pub holds : Holds (state + 168) (masked c.machine) c.segments c' state (saved c vector code)

-- The entry point of an exception calls the handler with the number of the exception, the address of
-- the frame, the lower half of the error code, which is 0 if the exception has none, and the address
-- of the saved words, which is also the stack pointer; for a frame that ends at a multiple of 16, as
-- the processor places it, that is one too. Read as a structure `registers`
-- that address gives in no field the register of its name. From the frame on memory is unchanged.
pub exception_handler-Enters :
    (vector code state : ℕ) (c : Core)
    → Interrupted vector code state c
    → Enters vector code state c (exec (exception_handler vector ++ entry_vector) c)
unfolding exec step
exception_handler-Enters vector code state c i =
    let (c', runs, h) = all_saved vector code state c i in
    let below : Stacked c'.machine.mem (state + 152) (vector ∷ code ∷ []) =
      Stacked-drop c'.machine.mem (map c.segments saved_segments ++ map c.regs saved_registers)
        (vector ∷ code ∷ []) state h.stack in
    subst (Enters vector code state c) (sym runs) (record {
      vector_is =
          ap (λ x. read 4 c'.machine.mem (u64 (x + 152))) h.at
          ∙ ap (read 4 c'.machine.mem) (omega (arith, i.few))
          ∙ read-half c'.machine.mem (state + 152) h.bytes
          ∙ ap u32 below.0
          ∙ omega (arith, i.exception);
      frame_is = omega (arith, h.at, i.few);
      code_is =
          ap (λ x. read 4 c'.machine.mem (u64 (x + 160))) h.at
          ∙ ap (read 4 c'.machine.mem) (omega (arith, i.few))
          ∙ read-half c'.machine.mem (state + 152 + 8) h.bytes
          ∙ ap u32 below.1.0;
      state_is = h.at;
      aligned = λ z. omega (arith, h.at);
      layout =
          ap (registers_at c'.machine.mem) h.at
          ∙ registers_at-saved c'.machine.mem c vector code state h.stack;
      holds = record {
        at = h.at;
        stack = h.stack;
        bytes = h.bytes;
        trace = h.trace;
        above = h.above;
        selectors = h.selectors;
      };
    })
