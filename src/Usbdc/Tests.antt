-- ===== src/Usbdc/Tests.antt =====
-- Runs of `sc_check_usbdc`, and its theorems at concrete inputs.
use ftx.Base.{◌≡◌, ◌≢◌, inl, arith, true, ◌+◌, ◌^◌, ◌≤◌, ◌==◌, if◌then◌else◌, [], ◌∷◌, ◌++◌}
use ftx.Base.Words.{be32}
use ftx.Usbdc.Machine.{Saturn, done, stuck, poke}
use ftx.Usbdc.Words.{feed, sent}
use ftx.Usbdc.Transfer.{sum_of, verdict}
use ftx.Usbdc.Handlers.{sc_check_usbdc, do_exec_ext}
use ftx.Usbdc.Exec.{place, start, do_exec_ext_lem}
use ftx.Usbdc.Loop.{sc_check_usbdc-ne-stuck, sc_check_usbdc_upload, sc_check_usbdc_download}

abbrev console : Saturn
console = record {
  mem = λ x. x;
  fifo_in = 2 ∷ 0 ∷ 0 ∷ [];
  fifo_out = [];
  exec_buffer = 0x2020_0000;
  rw4_buffer = 0x2010_0000;
  has_soft_reset = true;
  events = [];
}

-- An upload cut short: the handler waits.
sc_check_usbdc-ne-stuck_example : sc_check_usbdc console ≢ stuck
sc_check_usbdc-ne-stuck_example = sc_check_usbdc-ne-stuck console

sc_check_usbdc_upload_example :
    sc_check_usbdc (feed console (2 ∷ (be32 64 ++ (be32 3 ++ (9 ∷ 8 ∷ 7 ∷ 1 ∷ 4 ∷ [])))))
    ≡ done tt (record console {
      mem = poke console.mem 64 (9 ∷ 8 ∷ 7 ∷ []);
      fifo_in = 4 ∷ [];
      fifo_out = verdict (9 ∷ 8 ∷ 7 ∷ []) 1 ∷ [];
    })
sc_check_usbdc_upload_example =
    sc_check_usbdc_upload console 64 (9 ∷ 8 ∷ 7 ∷ []) 1 (4 ∷ []) (omega arith) (omega arith)
      (omega arith) (omega arith) (omega arith)

sc_check_usbdc_download_example :
    sc_check_usbdc (feed console (1 ∷ (be32 64 ++ (be32 3 ++ (5 ∷ [])))))
    ≡ done tt (sent (feed console (5 ∷ [])) (64 ∷ 65 ∷ 66 ∷ sum_of (64 ∷ 65 ∷ 66 ∷ []) ∷ []))
sc_check_usbdc_download_example =
    sc_check_usbdc_download console 64 3 (5 ∷ [])
      (omega arith, omega arith, omega arith, omega arith, inl (omega arith))

fits : place console.exec_buffer 0x2030_4050 + 3 ≤ 2 ^ 32
unfolding place
fits = omega arith

-- Three bytes for 0x20304050, which is in the region of `exec_buffer`.
do_exec_ext_lem_example :
    do_exec_ext
      (feed console (be32 0x2030_4050 ++ (be32 3 ++ (be32 1 ++ (9 ∷ 8 ∷ 7 ∷ 1 ∷ 4 ∷ [])))))
    ≡ done tt (record console {
      mem = poke console.mem (place console.exec_buffer 0x2030_4050) (9 ∷ 8 ∷ 7 ∷ []);
      fifo_in = 4 ∷ [];
      fifo_out = verdict (9 ∷ 8 ∷ 7 ∷ []) 1 ∷ [];
      events =
          if sum_of (9 ∷ 8 ∷ 7 ∷ []) == 1
          then start true 1 (place console.exec_buffer 0x2030_4050) 3 0x2030_4050
          else [];
    })
do_exec_ext_lem_example =
    do_exec_ext_lem console 0x2030_4050 1 (9 ∷ 8 ∷ 7 ∷ []) 1 (4 ∷ []) (omega arith) (omega arith)
      (omega arith) fits
