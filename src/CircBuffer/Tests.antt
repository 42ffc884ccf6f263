-- ===== src/CircBuffer/Tests.antt =====
-- The properties of the circular buffer at concrete rings.
use ftx.Base.{◌≡◌, refl, arith, [], ◌∷◌, replicate}
use ftx.CircBuffer.{ScdData, rbuffer_size, scd_cbinit}
use ftx.CircBuffer.Ring.{IsRing}
use ftx.CircBuffer.Refines.{write, read, reads, queue_reads, reads-scd_cbinit}

-- The write pointer stands three bytes before the end of the ring.
abbrev late : ScdData
late = record {
  readptr = 2780;
  writeptr = 2781;
  buffer_size = rbuffer_size;
  rbuffer = replicate 2784 7;
}

reads-scd_cbinit_example :
    reads (write (1 ∷ 2 ∷ []) ∷ write (3 ∷ []) ∷ read ∷ read ∷ []) (scd_cbinit late)
    ≡ queue_reads (write (1 ∷ 2 ∷ []) ∷ write (3 ∷ []) ∷ read ∷ read ∷ []) []
reads-scd_cbinit_example =
    reads-scd_cbinit (write (1 ∷ 2 ∷ []) ∷ write (3 ∷ []) ∷ read ∷ read ∷ []) late refl
      (omega arith, (omega arith, (tt, (tt, tt))))

late-IsRing : IsRing late
late-IsRing = record {
  size = refl;
  room = refl;
  read_inside = omega arith;
  write_inside = omega arith;
}
