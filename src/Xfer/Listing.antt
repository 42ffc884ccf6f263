-- ===== src/Xfer/Listing.antt =====
-- `DoList` and `DoListStr` of src/xfer.cpp. They differ in where the listing goes, standard output or
-- a string to which it is appended.
pub mod Loop
pub mod CutOff
use ftx.Base.{ℕ, zero, suc, Bool, true, false, List, [], ◌∷◌, ◌++◌, Option, length, ◌==◌}
use ftx.Base.{if◌then◌else◌}
use ftx.Xfer.Link.{value, hang, M, bind}
use ftx.Xfer.Attempt.{◌>>=◌, ◌>>◌, either_way}
use ftx.Xfer.Remote.{list, Reply, status_ok, as_lines, send_remote_io_command}
use ftx.Xfer.Remote.{read_remote_io_reply, try_read_remote_io_reply, Tried, received}
use ftx.Xfer.Remote.{nothing_came, broken}

-- What the loop does with what `TryReadRemoteIoReply` gives.
unfoldable pub go_on : (Reply → M (List ℕ × Bool)) → List ℕ → Tried → M (List ℕ × Bool)
go_on again listing (received reply) = again reply
go_on again listing nothing_came = value (listing, true)
go_on again listing broken = value (listing, false)

unfoldable pub after_reply : List ℕ → M (List ℕ × Bool) → M (List ℕ × Bool) → M (List ℕ × Bool)
after_reply [] done more = done
after_reply (p ∷ ps) done more = more

-- The loop, from a reply that has been read: the listing, and the function's result. A reply takes
-- an answer of the driver at least, so that `fuel` ends the loop nowhere if it is not below their
-- number.
unfoldable pub list_loop : ℕ → Reply → List ℕ → M (List ℕ × Bool)
list_loop zero reply listing l = hang
list_loop (suc fuel) reply listing l =
    let listing' : List ℕ = listing ++ as_lines reply.payload in
    let rest =
      after_reply reply.payload (value (listing', true))
        (λ l.
          bind (try_read_remote_io_reply 200 l)
            (go_on (λ next. list_loop fuel next listing') listing'))
        l in
    if reply.status == status_ok then rest else value (listing', false) l

unfoldable pub do_list_str : Option (List ℕ) → List ℕ → M (List ℕ × Bool)
do_list_str path out_listing =
    either_way (send_remote_io_command list path >> read_remote_io_reply) (out_listing, false)
      λ reply l. list_loop (suc (length l.answers)) reply out_listing l

unfoldable pub do_list : Option (List ℕ) → M (List ℕ × Bool)
do_list path = do_list_str path []
