-- ===== src/Perf/Idle.antt =====
-- `unoptimized_function` of bootloader/delice_pxe/src/perfctr.cc, a function without a result: the
-- model gives its local arrays at the end and how often it has executed its `nop`.
use deliceos.Base.{ℕ, zero, suc, ◌+◌, ◌≡◌, refl, List, [], ◌∷◌, ltb, if◌then◌else◌, get_or, set}

abbrev zeros : ℕ → List ℕ
zeros zero = []
zeros (suc n) = 0 ∷ zeros n

-- The loop over `bytes`.
pub mark : ℕ → ℕ → List ℕ → List ℕ
mark zero ii bytes = bytes
mark (suc left) ii bytes =
    mark left (ii + 1) (if ltb 0x100 (get_or bytes ii 0) then set bytes 20 0x444 else bytes)

-- The loop that fills `bytess`; the numbers are below 128, so a signed `char` holds them.
pub number : ℕ → ℕ → List ℕ → List ℕ
number zero ii bytess = bytess
number (suc left) ii bytess = number left (ii + 1) (set bytess ii ii)

pub nops : ℕ → ℕ → List ℕ → ℕ
nops zero ii bytess = 0
nops (suc left) ii bytess =
    (if ltb 200 (get_or bytess ii 0) then 1 else 0) + nops left (ii + 1) bytess

pub unoptimized_function : ℕ → List ℕ × List ℕ × ℕ
unoptimized_function x =
    let bytes = mark 2 0 (0x41414243 ∷ 0x44454757 ∷ 0x4323343 ∷ zeros 29) in
    let bytess = number 128 0 (zeros 128) in (bytes, bytess, nops 128 0 bytess)

-- The `nop` is never executed.
unoptimized_function-nops : (x : ℕ) → (unoptimized_function x).2 ≡ 0
unfolding unoptimized_function mark number nops
unoptimized_function-nops x = refl
