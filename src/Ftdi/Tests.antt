-- ===== src/Ftdi/Tests.antt =====
-- The theorems about the proxy at concrete inputs.
use ftx.Base.{replicate, ℕ, List, ◌≡◌, arith, true, false, [], ◌∷◌, ◌++◌}
use ftx.Xfer.Link.{failed, moved, Link}
use ftx.Xfer.Upload.{calm}
use ftx.Xfer.Exchange.{Ensures}
use ftx.Ftdi.Proxy.{write_all_ftdi, trace_rsp_stream}
use ftx.Ftdi.Trace.{trace_rsp_stream-append}
use ftx.Ftdi.Relay.{Relayed, write_all_ftdi-Relayed}
use ftx.Ftdi.Rounds.{Leaves, write_all_ftdi-Leaves}

-- A purge that leaves nothing to be read.
abbrev no_bytes : List ℕ → List ℕ
no_bytes bytes = []

-- Two bytes in the first call; then four refusals, and the rest.
abbrev stubborn : Link
stubborn =
    calm (moved 2 false ∷ failed ∷ failed ∷ failed ∷ moved 0 false ∷ moved 9 false ∷ []) [] [] 0

write_all_ftdi-Relayed_example :
    Ensures
      (Relayed stubborn (1 ∷ 2 ∷ 3 ∷ 4 ∷ []) 0)
      (write_all_ftdi no_bytes (1 ∷ 2 ∷ 3 ∷ 4 ∷ []) stubborn)
write_all_ftdi-Relayed_example = write_all_ftdi-Relayed no_bytes (1 ∷ 2 ∷ 3 ∷ 4 ∷ []) stubborn

-- A driver that refuses 110 calls.
abbrev unwilling : Link
unwilling = calm (replicate 110 failed) [] [] 0

write_all_ftdi-Leaves_example : Leaves 5 (write_all_ftdi no_bytes (1 ∷ 2 ∷ 3 ∷ 4 ∷ []) unwilling)
write_all_ftdi-Leaves_example =
    write_all_ftdi-Leaves no_bytes (1 ∷ 2 ∷ 3 ∷ 4 ∷ []) unwilling 5 (omega arith)

-- "+$O" and "K#9d-", of which the packet is split.
trace_rsp_stream-append_example :
    trace_rsp_stream [] ((43 ∷ 36 ∷ 79 ∷ []) ++ (75 ∷ 35 ∷ 57 ∷ 100 ∷ 45 ∷ [])) true ≡ (
      (trace_rsp_stream [] (43 ∷ 36 ∷ 79 ∷ []) true).0
          ++ (trace_rsp_stream
              (trace_rsp_stream [] (43 ∷ 36 ∷ 79 ∷ []) true).1
              (75 ∷ 35 ∷ 57 ∷ 100 ∷ 45 ∷ [])
              true).0,
      (trace_rsp_stream
          (trace_rsp_stream [] (43 ∷ 36 ∷ 79 ∷ []) true).1
          (75 ∷ 35 ∷ 57 ∷ 100 ∷ 45 ∷ [])
          true).1,
    )
trace_rsp_stream-append_example =
    trace_rsp_stream-append [] (43 ∷ 36 ∷ 79 ∷ []) (75 ∷ 35 ∷ 57 ∷ 100 ∷ 45 ∷ []) true
