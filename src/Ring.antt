-- ===== src/Ring.antt =====
-- The ring buffers of agents/linux/tcpra_client_agent.c and tcpra_server_agent.c: an array of 8192
-- slots with `head`, `tail` and `count`. `CLIENT_JOB_CAPACITY`, `CLIENT_DECISION_CAPACITY` and
-- `SERVER_JOB_CAPACITY` are one number, and `& (capacity - 1u)` is `% capacity`.
pub mod Refine
pub mod Runs
pub mod Tests
use tlslatch.Base.{
  ℕ, ◌+◌, ◌-◌, ◌%◌, List, [], Option, some, none, Bool, true, false, ltb, ◌==◌, ◌&&◌, not,
  if◌then◌else◌, get_elem?, set,
}

abbrev pub ring_capacity : ℕ
ring_capacity = 8192

pub record Ring (A : Type 0) : Type 0 where
  pub slots : List A
  pub head : ℕ
  pub tail : ℕ
  pub count : ℕ

module _ {A : Type 0} where
  -- The body of `enqueue_job`, `enqueue_decision` and `enqueue_report` under their mutex; `open_for_jobs`
  -- is the rest of the test.
  unfoldable pub enqueue : Bool → A → Ring A → Bool × Ring A
  enqueue open_for_jobs x r =
      if ltb r.count ring_capacity && open_for_jobs
      then (
        true,
        record r {
          slots = set r.slots r.tail x;
          tail = (r.tail + 1) % ring_capacity;
          count = r.count + 1;
        },
      )
      else (false, r)

  -- `none` is the null pointer: there was nothing in the ring.
  unfoldable pub dequeue : Ring A → Option A × Ring A
  dequeue r = if r.count == 0 then (none, r) else (
    get_elem? r.slots r.head,
    record r { head = (r.head + 1) % ring_capacity; count = r.count - 1 },
  )
