-- ===== src/Xfer/Upload.antt =====
-- What `DoUpload` of src/xfer.cpp puts on the wire.
use ftx.Base.{ℕ, ◌+◌, ◌^◌, ◌≤◌, ◌<◌, min, ◌≡◌, ◌⊎◌, inl, inr, refl, sym}
use ftx.Base.{ap, ap₂, ◌∙◌, arith, Bool, true, false, ◌||◌, List, [], ◌∷◌, ◌++◌, append-nil}
use ftx.Base.{append_assoc, Option, none, some, length, take, drop, All, All-append, replicate}
use ftx.Base.{length-drop, take_all, take-append-drop, take-add, ◌==◌}
use ftx.Base.{if◌then◌else◌, eqb_of_ne, ltb_of_le}
use ftx.Checksum.{crc_usbdc_update}
use ftx.Checksum.Crc8.{IsByte, crc_usbdc_update-append, crc_usbdc_update-lt, crc_usbdc_update-nil}
use ftx.Xfer.Link.{Answer, failed, moved, Link, Run, value, hang}
use ftx.Xfer.Link.{write_loop, write_rest, ftdi_write_data}
use ftx.Xfer.Direct.{HostFile, command_bytes, send_command_with_address_and_length, stream_and_crc}
use ftx.Xfer.Direct.{read_status, await_status, check_reply, finish_upload, transmit, do_upload}

-- What a write of `bytes` that began at `l` has done: with `rest` left over, the device has taken
-- the bytes before `rest`, once and in order, and something is left only if the program was
-- interrupted; after a failure it has taken some first part of them.
abbrev pub Accounted : Link → List ℕ → Run (Option (List ℕ)) → Type 0
Accounted l bytes (value (some rest) l') =
    (l'.sent ++ rest ≡ l.sent ++ bytes)
    × (l'.incoming ≡ l.incoming)
    × ((rest ≡ []) ⊎ (l'.interrupted ≡ true))
Accounted l bytes (value none l') = (k : ℕ) × (l'.sent ≡ l.sent ++ take k bytes)
Accounted l bytes hang = Unit {0}

-- More of the bytes taken first does not change the account.
Accounted-after :
    (l : Link) (bytes : List ℕ) (k : ℕ) (l' : Link) (r : Run (Option (List ℕ)))
    → l'.sent ≡ l.sent ++ take k bytes
    → l'.incoming ≡ l.incoming
    → Accounted l' (drop k bytes) r
    → Accounted l bytes r
Accounted-after l bytes k l' (value (some rest) l'') es ei (a, b, c) = (
  a
      ∙ rw es (
          append_assoc l.sent (take k bytes) (drop k bytes)
          ∙ ap (λ t. l.sent ++ t) (take-append-drop k bytes)),
  b ∙ ei,
  c,
)
Accounted-after l bytes k l' (value none l'') es ei (j, e) = (
  k + j,
  e
      ∙ rw es (
          append_assoc l.sent (take k bytes) (take j (drop k bytes))
          ∙ ap (λ t. l.sent ++ t) (take-add k j bytes)),
)
Accounted-after l bytes k l' hang es ei h = tt

Accounted-if :
    (l : Link) (bytes : List ℕ) (t : Bool) (r q : Run (Option (List ℕ)))
    → (t ≡ true → Accounted l bytes r)
    → Accounted l bytes q
    → Accounted l bytes (if t then r else q)
Accounted-if l bytes true r q h g = h refl
Accounted-if l bytes false r q h g = g

write_loop-Accounted :
    (answers : List Answer) (bytes : List ℕ) (l : Link)
    → Accounted l bytes (write_loop answers bytes l)
unfolding write_loop
write_loop-Accounted answers [] l = (refl, refl, inl refl)
write_loop-Accounted [] (b ∷ bs) l =
    Accounted-if l (b ∷ bs) l.interrupted _ _ (λ e. (refl, refl, inr e)) tt
write_loop-Accounted (failed ∷ more) (b ∷ bs) l =
    Accounted-if l (b ∷ bs) l.interrupted _ _ (λ e. (refl, refl, inr e))
      (0, sym (append-nil l.sent))
write_loop-Accounted (moved n raised ∷ more) (b ∷ bs) l =
    Accounted-if l (b ∷ bs) l.interrupted _ _ (λ e. (refl, refl, inr e))
      (Accounted-after l (b ∷ bs) k l' _ refl refl (write_loop-Accounted more (drop k (b ∷ bs)) l'))
  where
    k : ℕ
    k = min n (length (b ∷ bs))

    l' : Link
    l' = record l {
      answers = more;
      sent = l.sent ++ take k (b ∷ bs);
      interrupted = l.interrupted || raised;
    }

-- However the driver splits a write, the device receives the bytes in order, each once: all of
-- them if the loop ends with nothing left, and otherwise the program was interrupted and what is
-- left was not sent; after a failed call it has received a first part. Nothing is read.
pub write_rest-Accounted : (bytes : List ℕ) (l : Link) → Accounted l bytes (write_rest bytes l)
unfolding write_rest
write_rest-Accounted bytes l = write_loop-Accounted l.answers bytes l

-- A driver that takes each write whole, as libftdi does when no call fails.
abbrev pub takes_all : ℕ → Answer
takes_all n = moved n false

-- A session that nobody has interrupted.
abbrev pub calm : List Answer → List ℕ → List ℕ → ℕ → Link
calm answers incoming sent recv_buf = record {
  answers = answers;
  incoming = incoming;
  sent = sent;
  interrupted = false;
  recv_buf = recv_buf;
}

nothing_left :
    (answers : List Answer) (bytes : List ℕ) (l : Link)
    → length bytes ≡ 0
    → write_loop answers bytes l ≡ value (some []) l
unfolding write_loop
nothing_left [] [] l e = refl
nothing_left (a ∷ more) [] l e = refl
nothing_left answers (b ∷ bs) l e = absurd (omega arith)

module _ (n : ℕ) (incoming : List ℕ) (recv_buf : ℕ) where
  min_all : (bytes : List ℕ) → length bytes ≤ n → min n (length bytes) ≡ length bytes
  min_all bytes h = omega arith

  write_data_whole :
      (bytes : List ℕ) (more : List Answer) (sent : List ℕ)
      → length bytes ≤ n
      → ftdi_write_data bytes (calm (takes_all n ∷ more) incoming sent recv_buf)
        ≡ value (some (length bytes)) (calm more incoming (sent ++ bytes) recv_buf)
  unfolding ftdi_write_data
  write_data_whole bytes more sent h =
      rw (min_all bytes h, take_all (length bytes) bytes (omega arith)) refl

  write_rest_whole :
      (b : ℕ) (bs : List ℕ) (more : List Answer) (sent : List ℕ)
      → length (b ∷ bs) ≤ n
      → write_rest (b ∷ bs) (calm (takes_all n ∷ more) incoming sent recv_buf)
        ≡ value (some []) (calm more incoming (sent ++ (b ∷ bs)) recv_buf)
  unfolding write_rest write_loop
  write_rest_whole b bs more sent h =
      rw (min_all (b ∷ bs) h, take_all (length bs) bs (omega arith))
        (nothing_left more (drop (length bs) bs) _ (omega (arith, length-drop (length bs) bs)))

-- The bytes of a file read in pieces.
abbrev pub concat : List (List ℕ) → List ℕ
concat [] = []
concat (p ∷ ps) = p ++ concat ps

-- What `fread` may return with a buffer of `n` bytes: 1 to `n` bytes.
abbrev pub IsPiece : ℕ → List ℕ → Type 0
IsPiece n p = (0 < length p) × (length p ≤ n) × All IsByte p

pub concat-IsByte : (n : ℕ) (ps : List (List ℕ)) → All (IsPiece n) ps → All IsByte (concat ps)
concat-IsByte n [] h = tt
concat-IsByte n (p ∷ ps) (hp, hps) = All-append IsByte p (concat ps) hp.2 (concat-IsByte n ps hps)

module _ (n : ℕ) (incoming : List ℕ) (recv_buf : ℕ) where
  stream_whole :
      (ps : List (List ℕ)) (c : ℕ) (more : List Answer) (sent : List ℕ)
      → c < 256
      → All (IsPiece n) ps
      → stream_and_crc ps c
          (calm (replicate (length ps) (takes_all n) ++ more) incoming sent recv_buf)
        ≡ value
            (some (crc_usbdc_update c (concat ps)))
            (calm more incoming (sent ++ concat ps) recv_buf)
  unfolding stream_and_crc
  stream_whole [] c more sent hc h =
      ap₂ (λ x y. value (some x) (calm more incoming y recv_buf)) (sym (crc_usbdc_update-nil c hc))
        (sym (append-nil sent))
  stream_whole ([] ∷ ps) c more sent hc (hp, hps) = absurd (omega arith)
  stream_whole ((b ∷ bs) ∷ ps) c more sent hc (hp, hps) =
      rw
        (write_rest_whole n incoming recv_buf b bs (replicate (length ps) (takes_all n) ++ more)
          sent hp.1)
        (stream_whole ps (crc_usbdc_update c (b ∷ bs)) more (sent ++ (b ∷ bs))
            (crc_usbdc_update-lt c (b ∷ bs) hc hp.2) hps
          ∙ ap₂ (λ x y. value (some x) (calm more incoming y recv_buf))
              (sym
                (crc_usbdc_update-append c (b ∷ bs) (concat ps) hc hp.2 (concat-IsByte n ps hps)))
              (append_assoc sent (b ∷ bs) (concat ps)))

-- The bytes of one upload: the command, the file, and the checksum of the file.
unfoldable pub upload_packet : ℕ → ℕ → ℕ → List ℕ → List ℕ
upload_packet cmd address size bytes =
    command_bytes cmd address size ++ (bytes ++ (crc_usbdc_update 0 bytes ∷ []))

-- The driver's answers to one upload: the command, each piece of the file and the checksum are
-- taken whole, and one byte is read.
abbrev pub upload_script : ℕ → List (List ℕ) → List Answer → List Answer
upload_script n ps later =
    takes_all n ∷ (replicate (length ps) (takes_all n) ++ (takes_all n ∷ (moved 1 false ∷ later)))

module _ (n : ℕ) (big : 13 ≤ n) (later : List Answer) (incoming : List ℕ) (reply recv_buf : ℕ) where
  abbrev before : List Answer → List ℕ → Link
  before answers sent = calm answers (reply ∷ incoming) sent recv_buf

  length-command : (cmd address size : ℕ) → length (command_bytes cmd address size) ≤ n
  unfolding command_bytes
  length-command cmd address size = ground arith

  finish_whole :
      (checksum : ℕ) (sent : List ℕ)
      → finish_upload checksum (before (takes_all n ∷ (moved 1 false ∷ later)) sent)
        ≡ value (reply == 0) (calm later incoming (sent ++ (checksum ∷ [])) reply)
  unfolding finish_upload
  finish_whole checksum sent =
      rw
        (write_data_whole n (reply ∷ incoming) recv_buf (checksum ∷ []) (moved 1 false ∷ later) sent
          (omega arith))
        (unfold await_status read_status check_reply in refl)

  -- With a driver that takes each write whole, an upload that passes the file checks sends exactly
  -- its packet, reads one byte, and succeeds if and only if that byte is 0.
  transmit_whole :
      (file : HostFile) (cmd address size : ℕ) (sent : List ℕ)
      → All (IsPiece n) file.pieces
      → file.read_error ≡ false
      → transmit file cmd address size (before (upload_script n file.pieces later) sent)
        ≡ value (reply == 0) (
            calm later incoming (sent ++ upload_packet cmd address size (concat file.pieces)) reply)
  unfolding transmit send_command_with_address_and_length upload_packet
  transmit_whole file cmd address size sent hp ok =
      rw
        (write_data_whole n (reply ∷ incoming) recv_buf (command_bytes cmd address size)
          (replicate (length file.pieces) (takes_all n) ++ (takes_all n ∷ (moved 1 false ∷ later)))
          sent (length-command cmd address size))
        (rw
          (stream_whole n (reply ∷ incoming) recv_buf file.pieces 0
            (takes_all n ∷ (moved 1 false ∷ later)) (sent ++ command_bytes cmd address size)
            (omega arith) hp)
          (rw ok (
            finish_whole (crc_usbdc_update 0 (concat file.pieces)) _
            ∙ ap (λ x. value (reply == 0) (calm later incoming x reply))
                (append_assoc (sent ++ command_bytes cmd address size) (concat file.pieces) _
                  ∙ append_assoc sent (command_bytes cmd address size) _))))

  pub do_upload_whole :
      (file : HostFile) (address size : ℕ) (execute : Bool) (sent : List ℕ)
      → file.size ≡ some size
      → 0 < size
      → size < 2 ^ 32
      → file.opens ≡ true
      → file.read_error ≡ false
      → All (IsPiece n) file.pieces
      → do_upload file address execute (before (upload_script n file.pieces later) sent)
        ≡ value (reply == 0) (
            calm later incoming
              (sent ++ upload_packet (if execute then 6 else 2) address size (concat file.pieces))
              reply)
  unfolding do_upload transmit
  do_upload_whole file address size execute sent es pos small eo ok hp =
      rw (es, eqb_of_ne size 0 (omega arith), ltb_of_le 0xffff_ffff size (omega arith), eo)
        (transmit_whole file (if execute then 6 else 2) address size sent hp ok)
