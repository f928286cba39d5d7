-- ===== src/Wire/Tests.antt =====
-- Examples for the theorems on agents/linux/wire_io.c.
use tlslatch.Base.{ℕ, List, [], ◌∷◌, ◌≡◌, arith}
use tlslatch.Wire.{Answer, interrupted, moved, complete, tcpra_write_all, tcpra_write_pair}
use tlslatch.Wire.Whole.{tcpra_write_all-returns, tcpra_write_pair-as-write_all}

abbrev answers : List Answer
answers = moved 2 ∷ interrupted ∷ moved 1 ∷ moved 9 ∷ []

abbrev buffer : List ℕ
buffer = 5 ∷ 6 ∷ 7 ∷ []

tcpra_write_all-returns_example : (tcpra_write_all answers buffer).status ≡ complete
tcpra_write_all-returns_example = tcpra_write_all-returns answers buffer (omega arith)

tcpra_write_pair-as-write_all_example :
    tcpra_write_pair answers (1 ∷ []) buffer ≡ tcpra_write_all answers (1 ∷ buffer)
tcpra_write_pair-as-write_all_example =
    tcpra_write_pair-as-write_all answers (1 ∷ []) buffer (omega arith)
