-- ===== src/Xfer/Progress/Frames.antt =====
-- Calls of src/xfer.cpp one after another under a driver that makes progress: commands and replies.
use ftx.Base.{ℕ, ◌+◌, ◌≤◌, ◌≡◌, refl, sym, arith}
use ftx.Base.{List, [], ◌∷◌, ◌++◌, append_assoc, some, length}
use ftx.Base.{le→leb}
use ftx.Xfer.Link.{Answer, Link, Run, bind}
use ftx.Xfer.Upload.{calm}
use ftx.Xfer.Attempt.{Attempt, ◌>>=◌, either_way}
use ftx.Xfer.Remote.{Command, command_code, patience, header}
use ftx.Xfer.Remote.{write_all_to_device, write_payload}
use ftx.Xfer.Remote.{send_remote_io_command, received, reply_payload}
use ftx.Xfer.Remote.{reply_header, try_read_remote_io_reply, as_reply, read_remote_io_reply}
use ftx.Xfer.Remote.Framing.{Frame}
use ftx.Xfer.Progress.{Lively, moves, Reaches, write_all_to_device_live, write_payload_live}
use ftx.Xfer.Progress.{read_exact_from_device_live}

module _ {A B : Type 0} (most : ℕ) where
  pub Reaches-bind :
      (answers : List Answer) (n k : ℕ) (run : Run A) (f : A → Link → Run B) (a : A) (b : B)
      (incoming sent incoming' sent' : List ℕ) (recv_buf : ℕ)
      → n + k ≤ moves answers
      → Reaches most answers n run a incoming sent recv_buf
      → ((rest : List Answer)
          → Lively most 0 rest
          → k ≤ moves rest
          → Reaches most rest k (f a (calm rest incoming sent recv_buf)) b incoming' sent' recv_buf)
      → Reaches most answers (n + k) (bind run f) b incoming' sent' recv_buf
  Reaches-bind answers n k run f a b i s i' s' buf enough (rest, live, hm, e) next =
      let (rest', live', hm', e') = next rest live (omega arith) in
      (rest', live', omega arith, rw e e')

  pub Reaches-either_way :
      (answers : List Answer) (n k : ℕ) (m : Attempt A) (otherwise : B) (f : A → Link → Run B)
      (l : Link) (a : A) (b : B) (incoming sent incoming' sent' : List ℕ) (recv_buf : ℕ)
      → n + k ≤ moves answers
      → Reaches most answers n (m l) (some a) incoming sent recv_buf
      → ((rest : List Answer)
          → Lively most 0 rest
          → k ≤ moves rest
          → Reaches most rest k (f a (calm rest incoming sent recv_buf)) b incoming' sent' recv_buf)
      → Reaches most answers (n + k) (either_way m otherwise f l) b incoming' sent' recv_buf
  unfolding either_way
  Reaches-either_way answers n k m otherwise f l a b i s i' s' buf enough (rest, live, hm, e) next =
      let (rest', live', hm', e') = next rest live (omega arith) in
      (rest', live', omega arith, rw e e')

  pub Reaches->>= :
      (answers : List Answer) (n k : ℕ) (m : Attempt A) (f : A → Attempt B) (l : Link) (a : A)
      (b : B) (incoming sent incoming' sent' : List ℕ) (recv_buf : ℕ)
      → n + k ≤ moves answers
      → Reaches most answers n (m l) (some a) incoming sent recv_buf
      → ((rest : List Answer)
          → Lively most 0 rest
          → k ≤ moves rest
          → Reaches most rest k
              (f a (calm rest incoming sent recv_buf))
              (some b)
              incoming'
              sent'
              recv_buf)
      → Reaches most answers (n + k) ((m >>= f) l) (some b) incoming' sent' recv_buf
  unfolding ◌>>=◌
  Reaches->>= answers n k m f l a b i s i' s' buf enough (rest, live, hm, e) next =
      let (rest', live', hm', e') = next rest live (omega arith) in
      (rest', live', omega arith, rw e e')

pub Reaches-sent :
    {A : Type 0} (most : ℕ) (answers : List Answer) (n : ℕ) (run : Run A) (a : A)
    (incoming sent sent' : List ℕ) (recv_buf : ℕ)
    → sent ≡ sent'
    → Reaches most answers n run a incoming sent recv_buf
    → Reaches most answers n run a incoming sent' recv_buf
Reaches-sent most answers n run a i s s' buf e h = rw (sym e) h

-- Under a driver that makes progress, `SendRemoteIoCommand` comes to its end.
pub send_remote_io_command_live :
    (most : ℕ) (answers : List Answer) (command : Command) (argument incoming sent : List ℕ)
    (recv_buf : ℕ)
    → Lively most 0 answers
    → length argument ≤ 0xffff
    → 7 + length argument ≤ moves answers
    → Reaches most answers
        (7 + length argument)
        (send_remote_io_command command (some argument) (calm answers incoming sent recv_buf))
        (some tt)
        incoming
        (sent ++ (header (command_code command) (length argument) ++ argument))
        recv_buf
unfolding send_remote_io_command ◌>>=◌ header
send_remote_io_command_live most answers command argument i s buf live short enough =
    let first : List ℕ = header (command_code command) (length argument) in
    rw (le→leb (length argument) 0xffff short) (
      Reaches->>= most answers 7 (length argument) (write_all_to_device first)
        (λ _. write_payload argument) (calm answers i s buf) tt tt i (s ++ first) i
        (s ++ (first ++ argument)) buf enough
        (write_all_to_device_live most answers first i s buf live (omega arith))
        λ rest live' left.
          Reaches-sent most rest (length argument) _ (some tt) i _ _ buf
            (append_assoc s first argument)
            (write_payload_live most rest argument i (s ++ first) buf live' left))

reply_payload_live :
    (answers : List Answer) (status : ℕ) (payload later sent : List ℕ) (recv_buf : ℕ)
    → Lively patience 0 answers
    → length payload ≤ moves answers
    → Reaches patience answers
        (length payload)
        (reply_payload status (length payload) (calm answers (payload ++ later) sent recv_buf))
        (received (record { status = status; payload = payload }))
        later
        sent
        recv_buf
unfolding reply_payload either_way
reply_payload_live answers status [] later s buf live h = (answers, live, omega arith, refl)
reply_payload_live answers status (p ∷ ps) later s buf live h =
    let (rest, live', hm, e) =
      read_exact_from_device_live patience answers (p ∷ ps) later s buf live h in
    (rest, live', hm, rw e refl)

-- Under a driver that makes progress, `ReadRemoteIoReply` comes to its end with the reply that the
-- console has sent.
pub read_remote_io_reply_live :
    (answers : List Answer) (status : ℕ) (payload wire later sent : List ℕ) (recv_buf : ℕ)
    → Lively patience 0 answers
    → Frame status payload wire
    → 7 + length payload ≤ moves answers
    → Reaches patience answers
        (7 + length payload)
        (read_remote_io_reply (calm answers (wire ++ later) sent recv_buf))
        (some (record { status = status; payload = payload }))
        later
        sent
        recv_buf
unfolding read_remote_io_reply as_reply try_read_remote_io_reply reply_header either_way
read_remote_io_reply_live answers status payload wire later s buf live (hi, lo, ew, el) enough =
    let first : List ℕ = 83 ∷ 82 ∷ 76 ∷ 49 ∷ status ∷ hi ∷ lo ∷ [] in
    let (rest, live', hm, e) =
      read_exact_from_device_live patience answers first (payload ++ later) s buf live
        (omega arith) in
    let (rest', live'', hm', e') =
      reply_payload_live rest status payload later s buf live' (omega arith) in
    (rest', live'', omega arith, rw (ew, e, sym el, e') refl)
