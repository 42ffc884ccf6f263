-- ===== src/CircBuffer/Refines.antt =====
-- Sequences of writes and reads of the ring against a queue, and how full `scd_cbmemuse` says it is.
use ftx.Base.{ℕ, ◌+◌, ◌-◌, ◌*◌, ◌/◌, ◌^◌, ◌<◌, ◌≡◌, refl, ap, ◌∙◌, arith}
use ftx.Base.{List, [], ◌∷◌, length}
use ftx.Base.{All}
use ftx.Base.{◌==◌, if◌then◌else◌}
use ftx.CircBuffer.{ScdData, rbuffer_size}
use ftx.CircBuffer.{scd_cbinit, scd_cbwrite, scd_cbmemuse, scd_cbread, cb_scale}
use ftx.CircBuffer.Ring.{IsRing, contents}
use ftx.CircBuffer.Queue.{
  push, scd_cbwrite-IsRing, contents-scd_cbwrite, IsRing-scd_cbinit, length-contents,
}
use ftx.CircBuffer.Queue.{contents-scd_cbinit}
use ftx.CircBuffer.Drain.{emptied, scd_cbread-contents, emptied-IsRing, contents-emptied}

-- What the Saturn and the PC do to the buffer in turn.
pub data Op : Type 0 where
  write : List ℕ → Op
  read : Op

-- What the reads return.
unfoldable pub reads : List Op → ScdData → List (List ℕ)
reads [] d = []
reads (write input ∷ ops) d = reads ops (scd_cbwrite input (length input) d)
reads (read ∷ ops) d = (scd_cbread d).0 ∷ reads ops (scd_cbread d).1

unfoldable pub queue_reads : List Op → List ℕ → List (List ℕ)
queue_reads [] queue = []
queue_reads (write input ∷ ops) queue = queue_reads ops (push input queue)
queue_reads (read ∷ ops) queue = queue ∷ queue_reads ops []

abbrev pub IsShort : Op → Type 0
IsShort (write input) = length input + 1 < 2 ^ 32
IsShort read = Unit

reads-queue_reads :
    (ops : List Op) (d : ScdData)
    → IsRing d
    → All IsShort ops
    → reads ops d ≡ queue_reads ops (contents d)
unfolding reads queue_reads
reads-queue_reads [] d ring short = refl
reads-queue_reads (write input ∷ ops) d ring short =
    reads-queue_reads ops (scd_cbwrite input (length input) d)
      (scd_cbwrite-IsRing d ring input short.0) short.1
    ∙ ap (queue_reads ops) (contents-scd_cbwrite d ring input short.0)
reads-queue_reads (read ∷ ops) d ring short = rw (scd_cbread-contents d ring) (
    ap (λ l. contents d ∷ l)
      (reads-queue_reads ops (emptied d ring) (emptied-IsRing d ring) short.1
        ∙ ap (queue_reads ops) (contents-emptied d ring)))

-- From `scd_cbinit` on, over any sequence of writes (of less than 2^32 - 1 bytes each) and reads,
-- the reads return what they return of a queue in which a write of n bytes is kept exactly when n
-- and two more bytes of the 2784 are free, and dropped whole otherwise.
pub reads-scd_cbinit :
    (ops : List Op) (d : ScdData)
    → length d.rbuffer ≡ rbuffer_size
    → All IsShort ops
    → reads ops (scd_cbinit d) ≡ queue_reads ops []
reads-scd_cbinit ops d room short =
    reads-queue_reads ops (scd_cbinit d) (IsRing-scd_cbinit d room) short
    ∙ ap (queue_reads ops) (contents-scd_cbinit d)

-- `scd_cbmemuse` gives 128 for an empty ring, and for one that holds n > 0 bytes the least m with
-- m / 128 at least (n + 1) / 2784.
pub scd_cbmemuse_lem :
    (d : ScdData)
    → IsRing d
    → scd_cbmemuse d ≡ (
        if length (contents d) == 0
        then 128
        else (128 * (length (contents d) + 1) + (rbuffer_size - 1)) / rbuffer_size)
unfolding scd_cbmemuse cb_scale
scd_cbmemuse_lem d ring =
    rw (length-contents d, ring.size) (ground (arith, ring.read_inside, ring.write_inside))
