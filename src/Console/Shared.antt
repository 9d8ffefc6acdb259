-- ===== src/Console/Shared.antt =====
-- Calls of `printf_` of bootloader/delice_pxe/src/printf.cc on several processors at once: each takes
-- the lock `spin`, hands its characters to `_out_char` one by one, and frees the lock. What `Lock`
-- has as the steps of a thread is done here around the characters. A character that is handed over
-- is one step: what it takes at the ports is in `Serial`.
pub mod Messages
mod Enter
mod Leave
pub mod Whole
mod Tests
use deliceos.Base.{ℕ, List, [], ◌∷◌, ◌++◌, Option, none, some, ◌==◌, if◌then◌else◌, get_elem?}
use deliceos.Lock.{Phase, idle, waiting, holding, System, take, poll, drop, step}

-- The lock, the characters of each thread's message and those of them that it has not handed over
-- yet, and all that has been handed over, the first character first, with the thread that did it.
pub record Spool : Type 0 where
  pub spin : System
  pub message : ℕ → List ℕ
  pub left : ℕ → List ℕ
  pub out : List (ℕ × ℕ)

-- `call` is the start of `printf_` up to its ticket; `try` one round of the loop of `lock()`;
-- `emit` the next call of `_out_char`; `ret` the end of the statement, where the guard goes.
pub data Act : Type 0 where
  call : ℕ → List ℕ → Act
  try : ℕ → Act
  emit : ℕ → Act
  ret : ℕ → Act

abbrev pub update : (ℕ → List ℕ) → ℕ → List ℕ → ℕ → List ℕ
update f t xs u = if u == t then xs else f u

abbrev pub with_lock : Option System → (System → Spool) → Option Spool
with_lock none f = none
with_lock (some spin) f = some (f spin)

pub hand_over : ℕ → Option Phase → List ℕ → Spool → Option Spool
hand_over t (some holding) (c ∷ cs) s =
    some (record s { left = update s.left t cs; out = s.out ++ ((t, c) ∷ []) })
hand_over t (some holding) [] s = none
hand_over t (some idle) cs s = none
hand_over t (some (waiting k)) cs s = none
hand_over t none cs s = none

pub give_back : ℕ → List ℕ → Spool → Option Spool
give_back t [] s = with_lock (step (drop t) s.spin) (λ spin. record s { spin = spin })
give_back t (c ∷ cs) s = none

-- `none`: the thread is not where it could do this.
pub act : Act → Spool → Option Spool
act (call t chars) s = with_lock (step (take t) s.spin) λ spin. record s {
  spin = spin;
  message = update s.message t chars;
  left = update s.left t chars;
}
act (try t) s = with_lock (step (poll t) s.spin) (λ spin. record s { spin = spin })
act (emit t) s = hand_over t (get_elem? s.spin.threads t) (s.left t) s
act (ret t) s = give_back t (s.left t) s

abbrev pub with_spool : Option Spool → (Spool → Option Spool) → Option Spool
with_spool none f = none
with_spool (some s) f = f s

pub acts : List Act → Spool → Option Spool
acts [] s = some s
acts (a ∷ as') s = with_spool (act a s) (acts as')
