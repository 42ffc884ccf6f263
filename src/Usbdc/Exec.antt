-- ===== src/Usbdc/Exec.antt =====
-- `DoExecExt`: a program is started only if its checksum is right.
use ftx.Base.{ℕ, ◌+◌, ◌^◌, ◌≤◌, ◌<◌, ◌≡◌, refl, sym, ap, arith, Bool, true, false}
use ftx.Base.{List, [], ◌∷◌, ◌++◌, append_assoc, append-nil, bit_and, ◌==◌, if◌then◌else◌, length}
use ftx.Base.Words.{be32}
use ftx.Usbdc.Machine.{Saturn, Event, done, poke, bind, ◌>>◌, recv_byte, send_byte}
use ftx.Usbdc.Words.{feed, sent, recv_dword_lem}
use ftx.Usbdc.Transfer.{sum_of, verdict, recv_into_lem, peek-poke}
use ftx.Usbdc.Handlers.{do_exec_ext, landing, sum_memory, soft_reset, log_event}

-- Where the data goes: to the execution address `exec`, or to `exec_buffer`.
unfoldable pub place : ℕ → ℕ → ℕ
place exec_buffer exec =
    if bit_and exec 0x0f00_0000 == bit_and exec_buffer 0x0f00_0000 then exec else exec_buffer

-- The soft reset's callback, if there is one, and then the execution.
unfoldable pub start : Bool → ℕ → ℕ → ℕ → ℕ → List Event
start has_soft_reset flags p_data len exec =
    if has_soft_reset
    then Event.soft_reset flags ∷ (Event.execute flags p_data len exec ∷ [])
    else Event.execute flags p_data len exec ∷ []

landing_lem : (s : Saturn) (exec : ℕ) → landing exec s ≡ done (place s.exec_buffer exec) s
unfolding landing place
landing_lem s exec = ground arith

sum_memory_lem :
    (s : Saturn) (a : ℕ) (bytes : List ℕ)
    → a + length bytes ≤ 2 ^ 32
    → (rest : List ℕ)
    → sum_memory a (length bytes) (record s { mem = poke s.mem a bytes; fifo_in = rest })
      ≡ done (sum_of bytes) (record s { mem = poke s.mem a bytes; fifo_in = rest })
unfolding sum_memory sum_of
sum_memory_lem s a bytes h rest = rw (peek-poke bytes s.mem a h) refl

started_events :
    (b : Bool) (s : Saturn) (flags p_data len exec : ℕ)
    → bind
        (if b then log_event (Event.soft_reset flags) s else done tt s)
        (λ _. log_event (Event.execute flags p_data len exec))
      ≡ done tt (record s { events = s.events ++ start b flags p_data len exec })
unfolding log_event start
started_events true s flags p_data len exec =
    ap (λ es. done tt (record s { events = es })) (append_assoc s.events _ _)
started_events false s flags p_data len exec = refl

finish :
    (ok : Bool) (s : Saturn) (flags p_data len exec : ℕ)
    → (if ok
          then send_byte 0 >> (soft_reset flags >> log_event (Event.execute flags p_data len exec))
          else send_byte 1)
        s
      ≡ done tt (record s {
        fifo_out = s.fifo_out ++ ((if ok then 0 else 1) ∷ []);
        events = s.events ++ (if ok then start s.has_soft_reset flags p_data len exec else []);
      })
unfolding soft_reset send_byte
finish true s flags p_data len exec =
    started_events s.has_soft_reset (sent s (0 ∷ [])) flags p_data len exec
finish false s flags p_data len exec =
    ap (λ es. done tt (record s { fifo_out = s.fifo_out ++ (1 ∷ []); events = es }))
      (sym (append-nil s.events))

-- Given an execution address, a length, the reset flags, as many bytes and a checksum, `DoExecExt`
-- stores the bytes at the execution address, or at `exec_buffer` where that lies in another 16 MB
-- region, and answers 0 if the checksum is right and 1 if not. If it is right, the soft reset's
-- callback, where there is one, and then the execution follow, and if it is not, nothing does.
-- This is for a block that ends within the address space.
pub do_exec_ext_lem :
    (s : Saturn) (exec flags : ℕ) (bytes : List ℕ) (check : ℕ) (rest : List ℕ)
    → exec < 2 ^ 32
    → flags < 2 ^ 32
    → length bytes < 2 ^ 32
    → place s.exec_buffer exec + length bytes ≤ 2 ^ 32
    → do_exec_ext
        (feed s (be32 exec ++ (be32 (length bytes) ++ (be32 flags ++ (bytes ++ (check ∷ rest))))))
      ≡ done tt (record s {
        mem = poke s.mem (place s.exec_buffer exec) bytes;
        fifo_in = rest;
        fifo_out = s.fifo_out ++ (verdict bytes check ∷ []);
        events =
            s.events
            ++ (if sum_of bytes == check
                then start s.has_soft_reset flags (place s.exec_buffer exec) (length bytes) exec
                else []);
      })
unfolding do_exec_ext
do_exec_ext_lem s exec flags bytes check rest he hf hl h =
    rw (recv_dword_lem s exec (be32 (length bytes) ++ (be32 flags ++ (bytes ++ (check ∷ rest)))) he)
      (rw
        (landing_lem (feed s (be32 (length bytes) ++ (be32 flags ++ (bytes ++ (check ∷ rest)))))
          exec)
        (rw (recv_dword_lem s (length bytes) (be32 flags ++ (bytes ++ (check ∷ rest))) hl) (
          rw (recv_dword_lem s flags (bytes ++ (check ∷ rest)) hf) (
            rw (recv_into_lem bytes (check ∷ rest) (place s.exec_buffer exec) s) (
              rw (sum_memory_lem s (place s.exec_buffer exec) bytes h (check ∷ rest)) (
                unfold recv_byte in
                finish (sum_of bytes == check)
                  (record s { mem = poke s.mem (place s.exec_buffer exec) bytes; fifo_in = rest })
                  flags (place s.exec_buffer exec) (length bytes) exec))))))
