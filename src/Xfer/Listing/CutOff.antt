-- ===== src/Xfer/Listing/CutOff.antt =====
-- `DoListStr` of src/xfer.cpp when the driver fails between two replies.
use ftx.Base.{ℕ, suc, ◌≡◌, refl, true, List, ◌∷◌, ◌++◌, Option, some, length}
use ftx.Base.{eqb_of_eq}
use ftx.Xfer.Link.{Answer, failed, value}
use ftx.Xfer.Attempt.{◌>>◌, either_way}
use ftx.Xfer.Upload.{calm}
use ftx.Xfer.Remote.{list, as_lines, send_remote_io_command, read_remote_io_reply}
use ftx.Xfer.Remote.{try_read_remote_io_reply, nothing_came, read_exact_from_device, read_loop}
use ftx.Xfer.Listing.{go_on, after_reply, list_loop, do_list_str}

-- A failed read of a reply's header is not told from a silent device.
try_read-failed :
    (most : ℕ) (more : List Answer) (incoming sent : List ℕ) (recv_buf : ℕ)
    → try_read_remote_io_reply most (calm (failed ∷ more) incoming sent recv_buf)
      ≡ value nothing_came (calm more incoming sent recv_buf)
unfolding try_read_remote_io_reply either_way read_exact_from_device read_loop
try_read-failed most more incoming sent buf = refl

list_loop-failed :
    (fuel : ℕ) (status : ℕ) (p : ℕ) (ps listing : List ℕ) (more : List Answer)
    (incoming sent : List ℕ) (recv_buf : ℕ)
    → status ≡ 0
    → list_loop
        (suc fuel)
        (record { status = status; payload = p ∷ ps })
        listing
        (calm (failed ∷ more) incoming sent recv_buf)
      ≡ value (listing ++ as_lines (p ∷ ps), true) (calm more incoming sent recv_buf)
unfolding list_loop after_reply
list_loop-failed fuel status p ps listing more incoming sent buf e =
    rw (eqb_of_eq status 0 e, try_read-failed 200 more incoming sent buf) (unfold go_on in refl)

-- A code bug: a listing that the driver cuts off reports success. When the first reply is OK and
-- holds a part of the listing, and the next read fails, `DoListStr` returns 1 with that part, as it
-- does after a whole listing.
pub do_list_str_cut_off :
    (path : Option (List ℕ)) (listing : List ℕ) (answers : List Answer) (status p : ℕ)
    (ps incoming sent incoming' sent' : List ℕ) (more : List Answer) (recv_buf recv_buf' : ℕ)
    → status ≡ 0
    → (send_remote_io_command list path >> read_remote_io_reply)
        (calm answers incoming sent recv_buf)
      ≡ value
          (some (record { status = status; payload = p ∷ ps }))
          (calm (failed ∷ more) incoming' sent' recv_buf')
    → do_list_str path listing (calm answers incoming sent recv_buf)
      ≡ value (listing ++ as_lines (p ∷ ps), true) (calm more incoming' sent' recv_buf')
unfolding do_list_str either_way
do_list_str_cut_off path listing answers status p ps i s i' s' more buf buf' e asked =
    rw asked (list_loop-failed (suc (length more)) status p ps listing more i' s' buf' e)
