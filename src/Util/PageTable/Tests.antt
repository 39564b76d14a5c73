-- ===== src/Util/PageTable/Tests.antt =====
-- A table with two values, one of them set twice and changed once.
use dbstream.Common.{ℕ, ◌≡◌, none, some, List, [], ◌∷◌, arith}
use dbstream.Util.PageTable.{new_table, get, begin}
use dbstream.Util.PageTable.Outcome.{Op, set_op, update_op, erase_op}
use dbstream.Util.PageTable.Map.{run, AllBelow, run-get, run-begin}

abbrev ops : List (Op ℕ)
ops = erase_op 7 ∷ update_op 4097 50 ∷ set_op 4097 40 ∷ set_op 7 20 ∷ set_op 4097 10 ∷ []

ops-AllBelow : AllBelow ops
ops-AllBelow = (omega arith, (omega arith, (omega arith, (omega arith, (omega arith, tt)))))

run-get_example : get (run ops new_table) 4097 ≡ some 50
run-get_example = run-get ops ops-AllBelow 4097 (omega arith)

run-begin_example : begin (run ops new_table) ≡ none
run-begin_example = run-begin ops ops-AllBelow
