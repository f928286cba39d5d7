-- ===== src/Wire.antt =====
-- agents/linux/wire_io.c: numbers in network order, and whole reads and writes on a socket.
pub mod Whole
pub mod Tests
use tlslatch.Base.{
  ℕ, zero, suc, ◌+◌, ◌*◌, ◌/◌, ◌%◌, ◌-◌, ◌^◌, List, [], ◌∷◌, ◌++◌, Bool, true, false, ltb, leb,
  ◌==◌, if◌then◌else◌, length, take, drop,
}

-- `htonl` on a machine whose order is the other one
unfoldable pub htonl : ℕ → ℕ
htonl n = n % 256 * 2 ^ 24 + n / 2 ^ 8 % 256 * 2 ^ 16 + n / 2 ^ 16 % 256 * 2 ^ 8 + n / 2 ^ 24 % 256

-- The two halves do not overlap, so that `|` is `+`.
unfoldable pub tcpra_network_u64 : ℕ → ℕ
tcpra_network_u64 value = htonl (value % 2 ^ 32) * 2 ^ 32 + htonl (value / 2 ^ 32 % 2 ^ 32)

-- What one call of `send`, `sendmsg` or `recv` comes to: it was interrupted, it failed, the other side
-- has closed, or it moved a number of bytes, which is never more than it was asked to.
pub data Answer : Type 0 where
  interrupted failed : Answer
  moved : ℕ → Answer

-- The call has returned 1 or 0, or the kernel has not answered yet.
pub data Status : Type 0 where
  complete gave_up waiting : Status

pub record Progress : Type 0 where
  pub status : Status
  pub sent : List ℕ

-- `sent` followed by what a later step sends
abbrev pub after : List ℕ → Progress → Progress
after sent rest = record { status = rest.status; sent = sent ++ rest.sent }

-- The loop takes one answer of the kernel in each round.
unfoldable pub tcpra_write_all : List Answer → List ℕ → Progress
tcpra_write_all answers [] = record { status = complete; sent = [] }
tcpra_write_all [] (b ∷ buffer) = record { status = waiting; sent = [] }
tcpra_write_all (interrupted ∷ answers) (b ∷ buffer) = tcpra_write_all answers (b ∷ buffer)
tcpra_write_all (failed ∷ answers) (b ∷ buffer) = record { status = gave_up; sent = [] }
tcpra_write_all (moved zero ∷ answers) (b ∷ buffer) = record { status = gave_up; sent = [] }
tcpra_write_all (moved (suc n) ∷ answers) (b ∷ buffer) =
    after (b ∷ take n buffer) (tcpra_write_all answers (drop n buffer))

-- The bytes that the other side has sent are `stream`. The buffer is filled with what has come.
unfoldable pub tcpra_read_all : List Answer → List ℕ → ℕ → Progress
tcpra_read_all answers stream zero = record { status = complete; sent = [] }
tcpra_read_all [] stream (suc wanted) = record { status = waiting; sent = [] }
tcpra_read_all (interrupted ∷ answers) stream (suc wanted) =
    tcpra_read_all answers stream (suc wanted)
tcpra_read_all (failed ∷ answers) stream (suc wanted) = record { status = gave_up; sent = [] }
tcpra_read_all (moved n ∷ answers) stream (suc wanted) =
    let received = take n (take (suc wanted) stream) in
    let rest =
      tcpra_read_all answers (drop (length received) stream) (suc wanted - length received) in
    if length received == 0 then record { status = gave_up; sent = [] } else after received rest

-- The vectors that are left, none of them at its end: `index` 0, 1 and 2.
pub data Vectors : Type 0 where
  both : List ℕ → List ℕ → Vectors
  second_only : List ℕ → Vectors
  sent_all : Vectors

-- The bytes of the vectors, as `sendmsg` sends them.
abbrev pub vector_bytes : Vectors → List ℕ
vector_bytes (both first second) = first ++ second
vector_bytes (second_only second) = second
vector_bytes sent_all = []

-- The inner loop over `consumed`, and the vector that it stops in.
unfoldable pub consume_second : ℕ → List ℕ → Vectors
consume_second consumed second =
    if leb (length second) consumed then sent_all else second_only (drop consumed second)

unfoldable pub consume : ℕ → Vectors → Vectors
consume consumed (both first second) =
    if leb (length first) consumed
    then consume_second (consumed - length first) second
    else both (drop consumed first) second
consume consumed (second_only second) = consume_second consumed second
consume consumed sent_all = sent_all

abbrev pub is_sent_all : Vectors → Bool
is_sent_all sent_all = true
is_sent_all _ = false

unfoldable pub write_vectors : List Answer → Vectors → Progress
write_vectors [] vectors = record {
  status = if is_sent_all vectors then complete else waiting;
  sent = [];
}
write_vectors (interrupted ∷ answers) vectors = write_vectors answers vectors
write_vectors (failed ∷ answers) vectors = record {
  status = if is_sent_all vectors then complete else gave_up;
  sent = [];
}
write_vectors (moved n ∷ answers) vectors =
    let sent = take n (vector_bytes vectors) in
    let rest = write_vectors answers (consume (length sent) vectors) in
    if is_sent_all vectors
    then record { status = complete; sent = [] }
    else if length sent == 0
    then record { status = gave_up; sent = [] }
    else after sent rest

unfoldable pub tcpra_write_pair : List Answer → List ℕ → List ℕ → Progress
tcpra_write_pair answers first second = write_vectors answers (both first second)
