-- ===== src/Fd/Pipe/Channel.antt =====
-- What a pipe promises: a bounded queue of bytes with two ends that can be closed. It stands for
-- the `Pipe` of src/fd.rs without its ring.
use crabv.Base.{ℕ, ◌-◌, min, Bool, List, ◌++◌, ok, err, if◌then◌else◌, length, take, drop, ◌==◌}
use crabv.Fd.Error.{FdResult, would_block, broken_pipe}

pub record Channel : Type 0 where
  pub queue : List ℕ
  pub reader_open : Bool
  pub writer_open : Bool

-- One cell of the 4096 is never used.
abbrev pub capacity : ℕ
capacity = 4095

-- Take from the front what fits into `buf`. An empty queue ends the stream once the writers left.
abbrev pub recv : Channel → List ℕ → FdResult ℕ × List ℕ × Channel
recv c buf =
    if length c.queue == 0
    then ((if c.writer_open then err would_block else ok 0), buf, c)
    else (let n = min (length buf) (length c.queue) in
        (ok n, take n c.queue ++ drop n buf, record c { queue = drop n c.queue }))

-- Put at the back what fits into the queue, unless the readers left.
abbrev pub send : Channel → List ℕ → FdResult ℕ × Channel
send c buf =
    if c.reader_open
    then (if capacity - length c.queue == 0
        then (err would_block, c)
        else (let n = min (length buf) (capacity - length c.queue) in
            (ok n, record c { queue = c.queue ++ take n buf })))
    else (err broken_pipe, c)
