-- ===== src/Ring/Tests.antt =====
-- example_unlockqueue.cpp: tests, and the theorems at concrete queues.
use uc.Prelude.{◌-◌, ◌^◌, ◌≡◌, refl, arith, List, [], ◌∷◌}
use uc.Ring.{
  Queue, data_len, masked, copy, put, get, clean, construct, initialize, is_power_of_2,
  roundup_power_of_two, shift_down,
}
use uc.Ring.Fifo.{IsValid, contents}
use uc.Ring.Run.{Op, put_op, get_op, len_op, clean_op, run, run_list, run-run_list}

program : Unit {0}
unfolding data_len masked copy put get clean construct initialize is_power_of_2 roundup_power_of_two
    shift_down run
program = tt

-- Two bytes, 8 then 9, round the end of the buffer and with indices that have wrapped.
abbrev wrapped : Queue
wrapped = record { buffer = 9 ∷ 6 ∷ 7 ∷ 8 ∷ []; size = 4; input = 1; output = 2 ^ 32 - 1 }

wrapped-IsValid : IsValid wrapped
unfolding data_len
wrapped-IsValid = record {
  exponent = 2;
  power = refl;
  narrow = omega arith;
  allocated = refl;
  input_word = omega arith;
  output_word = omega arith;
  within = omega arith;
}

wrapped_runs :
    run wrapped (len_op ∷ put_op (1 ∷ 2 ∷ 3 ∷ []) ∷ get_op 3 ∷ get_op 3 ∷ clean_op ∷ len_op ∷ [])
    ≡ (2, []) ∷ (2, []) ∷ (3, 8 ∷ 9 ∷ 1 ∷ []) ∷ (1, 2 ∷ []) ∷ (0, []) ∷ (0, []) ∷ []
unfolding program
wrapped_runs = refl

abbrev script : List Op
script = put_op (1 ∷ 2 ∷ 3 ∷ []) ∷ get_op 2 ∷ len_op ∷ []

run-run_list_example : run wrapped script ≡ run_list 4 (contents wrapped) script
run-run_list_example = run-run_list script wrapped wrapped-IsValid
