-- ===== src/Console/Tests.antt =====
-- A ring buffer whose one character lies at its end, so that the next ones wrap around.
use aqua_core.Prelude.{◌≡◌, refl, [], ◌∷◌, arith}
use aqua_core.Console.{Input, input_pop, poll_loop}
use aqua_core.Console.Queue.{IsInput, IsPolled, poll_loop_lem, IsPopped, input_pop_lem}

abbrev at_end : Input
at_end = record { input_buf = λ i. 97; input_head = 63; input_tail = 0; input_count = 1 }

at_end-IsInput : IsInput at_end
at_end-IsInput = record { head = omega arith; tail = refl; count = omega arith }

poll_loop_lem_example : IsPolled at_end (98 ∷ 99 ∷ []) (poll_loop at_end (98 ∷ 99 ∷ []))
poll_loop_lem_example = poll_loop_lem at_end (98 ∷ 99 ∷ []) at_end-IsInput

input_pop_lem_example : IsPopped at_end (input_pop at_end)
input_pop_lem_example = input_pop_lem at_end at_end-IsInput

two_more : (poll_loop at_end (98 ∷ 99 ∷ [])).0.input_count ≡ 3
unfolding poll_loop
two_more = refl
