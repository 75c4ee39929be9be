-- ===== src/Testing/Depth.antt =====
-- How deep the program of Recursion gets: every depth up to the number of frames, and no further.
use c_at.Base.{
  ◌⊎◌, sym, out_of_bounds, ◌≢◌, ◌≡◌, ◌∙◌, ap, suc, zero, ◌≤◌, ◌-◌, ◌%◌, ◌+◌, ◌*◌, ◌<◌, update,
  arith, refl, ℕ,
}
use c_at.Machine.Defs.{frame_count, Host, Globals, CallFrame, empty_frame, uint_mod, init_machine}
use c_at.Machine.Memory.{get_word, put_word}
use c_at.Machine.Memory.Laws.{get_word-put_word}
use c_at.Exec.Step.{execute_program, stuck}
use c_at.Mains.Vm.{exit_of, exited}
use c_at.Testing.Recursion.{
  recursion, at_inst, counted, IsReturn, to_compare, to_rec, to_push, to_call, to_return, overflow,
  ret_round, first_rounds, last_round,
}

-- The frames of the calls, the first at 3 and the others at 14.
abbrev AreCalls : (ℕ → CallFrame) → ℕ → Type 0
AreCalls fm k = ((fm 0).rip ≡ 5) × ((i : ℕ) → 0 < i → i < k → (fm i).rip ≡ 16)

AreCalls-return :
    (fm : ℕ → CallFrame) (k j : ℕ)
    → 0 < k
    → k < j
    → AreCalls fm j
    → AreCalls (update fm k empty_frame) k
AreCalls-return fm k j some_call below h =
    (ground (arith, h.0), λ i pos less. let kept = h.1 i pos (omega arith) in ground arith)

AreCalls-call :
    (fm : ℕ → CallFrame) (k : ℕ)
    → 0 < k
    → AreCalls fm k
    → AreCalls
        (update
          (update fm k (record { rip = 0; bfp = 0; lvp = 0 }))
          k
          (record { rip = 16; bfp = 0; lvp = 4 }))
        (k + 1)
AreCalls-call fm k some_call h = (ground (arith, h.0), λ i pos less. ground (arith, h.1 i pos))

module _ (host : Host) (g : Globals) (n : ℕ) where
  -- `k + 1` returns from procedures, and the return from the program.
  unwind :
      (k j at : ℕ) (d : ℕ → ℕ) (acc top : ℕ) (fm : ℕ → CallFrame) (memory : ℕ → ℕ)
      → j ≡ k + 1
      → j ≤ frame_count
      → IsReturn host g n at
      → AreCalls fm j
      → exit_of (execute_program host (suc (suc k)) (at_inst host g n at d acc j top fm memory))
        ≡ exited (d 0 % 256)
  unwind zero j at d acc top fm memory e room h calls =
      ap (λ (j : ℕ). exit_of (execute_program host 2 (at_inst host g n at d acc j top fm memory))) e
      ∙ ap exit_of (ret_round host g n 1 at d acc 0 top fm memory h (omega arith))
      ∙ ap
          (λ (p : ℕ). exit_of (
            execute_program host 1
              (at_inst host g n p d (d 0) 0 top (update fm 0 empty_frame) memory)))
          (omega (arith, calls.0))
      ∙ last_round host g n d (d 0) top (update fm 0 empty_frame) memory
  unwind (suc k) j at d acc top fm memory e room h calls =
      let resumed : (fm (suc k)).rip ≡ 16 = calls.1 (suc k) (omega arith) (omega arith) in
      ap
        (λ (j : ℕ).
          exit_of
            (execute_program host (suc (suc (suc k))) (at_inst host g n at d acc j top fm memory)))
        e
      ∙ ap exit_of (ret_round host g n (suc (suc k)) at d acc (suc k) top fm memory h (omega arith))
      ∙ ap
          (λ (p : ℕ). exit_of (
            execute_program host (suc (suc k))
              (at_inst host g n p d (d 0) (suc k) top (update fm (suc k) empty_frame) memory)))
          (omega (arith, resumed))
      ∙ unwind k (suc k) 15 d (d 0) top (update fm (suc k) empty_frame) memory (omega arith)
          (omega arith) (omega arith, refl)
          (AreCalls-return fm (suc k) j (omega arith) (omega arith) calls)

  -- A call one deeper.
  turn :
      (f : ℕ) (d : ℕ → ℕ) (k : ℕ) (fm : ℕ → CallFrame) (memory : ℕ → ℕ)
      → n < uint_mod
      → k < frame_count
      → get_word memory 4 + 1 ≡ k
      → n ≢ k
      → AreCalls fm k
      → (d' : ℕ → ℕ) × (fm' : ℕ → CallFrame) × (memory' : ℕ → ℕ) × (execute_program host
            (suc (suc (suc (suc (suc (suc (suc (suc (suc f)))))))))
            (at_inst host g n 5 d 0 k 4 fm memory)
          ≡ execute_program host f (at_inst host g n 5 d' 0 (k + 1) 4 fm' memory'))
        × (get_word memory' 4 + 1 ≡ k + 1)
        × AreCalls fm' (k + 1)
  turn f d k fm memory fits room value differs calls =
      let w : ℕ = get_word memory 4 in
      let d' : ℕ → ℕ = counted host g n d w in
      let recorded : ℕ → CallFrame = update fm k (record { rip = 0; bfp = 0; lvp = 0 }) in
      let count : (w + 1) % uint_mod ≡ k = omega arith in
      let other : d' 2 ≢ d' 0 = λ e. differs (omega arith) in
      (
        d',
        update recorded k (record { rip = 16; bfp = 0; lvp = 4 }),
        put_word memory 4 (d' 0),
        to_compare host g n (suc (suc (suc (suc f)))) d k fm memory fits
            ∙ to_rec host g n (suc (suc (suc f))) d' k fm memory other
            ∙ to_push host g n (suc f) d' k fm memory room
            ∙ to_call host g n f d' k recorded (put_word memory 4 (d' 0)) room,
        omega (arith, get_word-put_word memory 4 (d' 0) (omega arith)),
        AreCalls-call fm k (omega arith) calls,
      )

  -- From the procedure with `k` frames open to the depth `n`, `r` further down, and back.
  descend :
      (r : ℕ) (d : ℕ → ℕ) (k : ℕ) (fm : ℕ → CallFrame) (memory : ℕ → ℕ)
      → n ≤ frame_count
      → get_word memory 4 + 1 ≡ k
      → k + r ≡ n
      → AreCalls fm k
      → exit_of (execute_program host (r * 9 + n + 7) (at_inst host g n 5 d 0 k 4 fm memory))
        ≡ exited (n % 256)
  descend zero d k fm memory room value depth calls =
      let w : ℕ = get_word memory 4 in
      let d' : ℕ → ℕ = counted host g n d w in
      let count : (w + 1) % uint_mod ≡ n = omega arith in
      let fuel : 0 * 9 + n + 7 ≡ suc (suc (suc (suc (suc (suc (suc (suc (n - 1)))))))) =
        omega arith in
      ap (λ (f : ℕ). exit_of (execute_program host f (at_inst host g n 5 d 0 k 4 fm memory))) fuel
      ∙ ap exit_of (
          to_compare host g n (suc (suc (suc (n - 1)))) d k fm memory (omega arith)
          ∙ to_return host g n (suc (suc (n - 1))) d' k fm memory (sym count))
      ∙ unwind (n - 1) k 11 d' 0 0 fm memory (omega arith) (omega arith) (omega arith, refl) calls
      ∙ ap (λ (v : ℕ). exited (v % 256)) count
  descend (suc r) d k fm memory room value depth calls =
      let (d', fm', memory', run, value', calls') =
        turn (r * 9 + n + 7) d k fm memory (omega arith) (omega arith) value (λ e. omega arith)
          calls in
      let fuel : suc r * 9 + n + 7
          ≡ suc (suc (suc (suc (suc (suc (suc (suc (suc (r * 9 + n + 7))))))))) =
        omega arith in
      ap (λ (f : ℕ). exit_of (execute_program host f (at_inst host g n 5 d 0 k 4 fm memory))) fuel
      ∙ ap exit_of run
      ∙ descend r d' (k + 1) fm' memory' room value' (omega arith) calls'

  -- From the procedure with `k` frames open to the last frame, `r` further down.
  exhaust :
      (r : ℕ) (d : ℕ → ℕ) (k : ℕ) (fm : ℕ → CallFrame) (memory : ℕ → ℕ)
      → n < uint_mod
      → (n < k) ⊎ (frame_count < n)
      → get_word memory 4 + 1 ≡ k
      → k + r ≡ frame_count
      → AreCalls fm k
      → execute_program host (r * 9 + 7) (at_inst host g n 5 d 0 k 4 fm memory)
        ≡ stuck out_of_bounds
  exhaust zero d k fm memory fits outside value depth calls =
      let d' : ℕ → ℕ = counted host g n d (get_word memory 4) in
      ap (λ (k : ℕ). execute_program host 7 (at_inst host g n 5 d 0 k 4 fm memory))
        (omega (arith, depth))
      ∙ to_compare host g n 2 d frame_count fm memory fits
      ∙ to_rec host g n 1 d' frame_count fm memory (λ e. omega arith)
      ∙ overflow host g n 0 d' fm memory
  exhaust (suc r) d k fm memory fits outside value depth calls =
      let (d', fm', memory', run, value', calls') =
        turn (r * 9 + 7) d k fm memory fits (omega arith) value (λ e. omega arith) calls in
      let fuel : suc r * 9 + 7 ≡ suc (suc (suc (suc (suc (suc (suc (suc (suc (r * 9 + 7))))))))) =
        omega arith in
      ap (λ (f : ℕ). execute_program host f (at_inst host g n 5 d 0 k 4 fm memory)) fuel
      ∙ run
      ∙ exhaust r d' (k + 1) fm' memory' fits (omega (arith, outside)) value' (omega arith) calls'

  first_word : get_word (put_word g.stack 4 0) 4 + 1 ≡ 1
  first_word = omega (arith, get_word-put_word g.stack 4 0 (omega arith))

  first_call :
      AreCalls
        (update (update (λ _. empty_frame) 0 empty_frame) 0 (record { rip = 5; bfp = 0; lvp = 4 }))
        1
  first_call = (refl, λ i pos less. absurd (omega arith))

  -- The program of the native test of recursion, with any depth from 1 to 128 in the place of 5,
  -- ends within ten rounds for each call and two more, with the depth modulo 256 for its exit
  -- status, from any registers and any stack: the procedure calls itself until its count, handed
  -- on through the stack, is the depth, and every call returns.
  pub exit_of-recursion :
      0 < n
      → n ≤ frame_count
      → exit_of (execute_program host (n * 10 + 2) (init_machine g (recursion n) 16))
        ≡ exited (n % 256)
  exit_of-recursion some_depth room =
      let fuel : n * 10 + 2 ≡ suc (suc (suc (suc ((n - 1) * 9 + n + 7)))) = omega arith in
      ap (λ (f : ℕ). exit_of (execute_program host f (init_machine g (recursion n) 16))) fuel
      ∙ ap exit_of (first_rounds host g n ((n - 1) * 9 + n + 7))
      ∙ descend (n - 1) (update g.d_registers 0 0) 1 _ (put_word g.stack 4 0) room first_word
          (omega arith) first_call

  -- The program of the native test of recursion, with 0 or a depth above 128 and below 2 ^ 32 in
  -- the place of 5, stops within 1154 rounds with a fault, where a frame is recorded outside the
  -- array of 128, from any registers and any stack.
  pub recursion_overflows :
      (n ≡ 0) ⊎ (frame_count < n)
      → n < uint_mod
      → execute_program host 1154 (init_machine g (recursion n) 16) ≡ stuck out_of_bounds
  recursion_overflows deep fits =
      first_rounds host g n 1150
      ∙ exhaust 127 (update g.d_registers 0 0) 1 _ (put_word g.stack 4 0) fits (omega (arith, deep))
          first_word refl first_call
