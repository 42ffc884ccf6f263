-- ===== src/Xfer/SdUploads.antt =====
-- What a success of `DoSdUpload` of src/xfer.cpp says: the exchange that took place on the wire.
use ftx.Base.{ℕ, ◌<◌, ◌≡◌, sym, ap, ◌∙◌, arith}
use ftx.Base.{Bool, true, false, not, List, [], ◌∷◌, ◌++◌}
use ftx.Base.{Option, some, length, get_or, ltb, ◌==◌, ==_iff}
use ftx.Base.{All, if◌then◌else◌}
use ftx.Base.Words.{be32}
use ftx.Checksum.{crc_usbdc_update}
use ftx.Checksum.Crc8.{crc_usbdc_update-append, crc_usbdc_update-lt, crc_usbdc_update-nil}
use ftx.Xfer.Link.{Link, Run, value}
use ftx.Xfer.Direct.{HostFile}
use ftx.Xfer.Upload.{IsPiece, concat, concat-IsByte}
use ftx.Xfer.Attempt.{Attempt}
use ftx.Xfer.Remote.{Command, command_code, upload, Reply, patience}
use ftx.Xfer.Remote.{write_all_to_device, read_exact_from_device, send_remote_io_command}
use ftx.Xfer.Remote.{read_remote_io_reply}
use ftx.Xfer.Remote.Framing.{
  Frame, Frame-at, OnSuccess-guard, OnSuccess-test, send_remote_io_command-Frame,
}
use ftx.Xfer.Remote.Framing.{read_remote_io_reply-Frame}
use ftx.Xfer.Exchange.{Exchange, Exchange-at, Exchange-nothing, Exchange-then, Ensures, OnSuccess}
use ftx.Xfer.Exchange.{
  OnSuccess-bind, OnSuccess-weaken, Ensures-either_way, write_all_to_device_lem,
}
use ftx.Xfer.Exchange.{read_exact_from_device_lem}
use ftx.Xfer.SdTransfer.{stream_all, read_byte, upload_file, succeeds, upload_opened, upload_sized}
use ftx.Xfer.SdTransfer.{do_sd_upload}

-- The postconditions of the steps: what is sent, a frame that is sent, one that is received, and a
-- byte that is received.
abbrev pub Sends : Link → List ℕ → Unit {0} → Link → Type 0
Sends l bytes _ l' = Exchange l bytes [] l'

abbrev pub SendsFrame : Link → Command → List ℕ → Unit {0} → Link → Type 0
SendsFrame l command argument _ l' =
    (wire : List ℕ) × Frame (command_code command) argument wire × Exchange l wire [] l'

abbrev pub TakesFrame : Link → Reply → Link → Type 0
TakesFrame l r l' = (wire : List ℕ) × Frame r.status r.payload wire × Exchange l [] wire l'

abbrev pub TakesByte : Link → ℕ → Link → Type 0
TakesByte l b l' = Exchange l [] (b ∷ []) l'

pub read_byte_lem : (l : Link) → OnSuccess (TakesByte l) (read_byte l)
unfolding read_byte
read_byte_lem l =
    OnSuccess-bind (λ got l'. (length got ≡ 1) × Exchange l [] got l') (TakesByte l)
      (read_exact_from_device 1 patience) _ l (read_exact_from_device_lem 1 patience l)
      λ got l' (e, x). single got l' e x
  where
    single :
        (got : List ℕ) (l' : Link)
        → length got ≡ 1
        → Exchange l [] got l'
        → TakesByte l (get_or got 0 0) l'
    single (b ∷ []) l' e x = x
    single got l' e x = absurd (omega arith)

-- What `StreamAndCrc` sends and sums up.
abbrev Streams : Link → List (List ℕ) → ℕ → ℕ → Link → Type 0
Streams l ps c sum l' = (sum ≡ crc_usbdc_update c (concat ps)) × Exchange l (concat ps) [] l'

stream_all_lem :
    (n : ℕ) (ps : List (List ℕ)) (c : ℕ) (l : Link)
    → c < 256
    → All (IsPiece n) ps
    → OnSuccess (Streams l ps c) (stream_all ps c l)
unfolding stream_all
stream_all_lem n [] c l hc h = (sym (crc_usbdc_update-nil c hc), Exchange-nothing l)
stream_all_lem n ([] ∷ ps) c l hc (hp, hps) = absurd (omega arith)
stream_all_lem n ((b ∷ bs) ∷ ps) c l hc (hp, hps) =
    OnSuccess-bind (Sends l (b ∷ bs)) (Streams l ((b ∷ bs) ∷ ps) c) (write_all_to_device (b ∷ bs))
      (λ _. stream_all ps (crc_usbdc_update c (b ∷ bs))) l (write_all_to_device_lem (b ∷ bs) l)
      λ _ l' x.
        OnSuccess-weaken (Streams l' ps (crc_usbdc_update c (b ∷ bs))) (Streams l ((b ∷ bs) ∷ ps) c)
          _
          (stream_all_lem n ps (crc_usbdc_update c (b ∷ bs)) l'
            (crc_usbdc_update-lt c (b ∷ bs) hc hp.2) hps)
          λ sum l'' (e, y). (
            e
                ∙ sym (
                    crc_usbdc_update-append c (b ∷ bs) (concat ps) hc hp.2
                      (concat-IsByte n ps hps)),
            Exchange-then l l' l'' (b ∷ bs) (concat ps) [] [] x y,
          )

-- An upload to `path` that went through: the command, the size, the file and its checksum were sent,
-- and the console answered the command with OK and the file with 0.
abbrev pub Uploaded : Link → ℕ → List ℕ → List ℕ → Link → Type 0
Uploaded l file_size path bytes l' =
    (command : List ℕ) × (reply : List ℕ) × (payload : List ℕ) × Frame 4 path command
    × Frame 0 payload reply
    × Exchange l (command ++ (be32 file_size ++ (bytes ++ (crc_usbdc_update 0 bytes ∷ []))))
        (reply ++ (0 ∷ [])) l'

upload_file_lem :
    (n : ℕ) (file : HostFile) (file_size : ℕ) (path : List ℕ) (l : Link)
    → All (IsPiece n) file.pieces
    → OnSuccess
        (λ _ l'. Uploaded l file_size path (concat file.pieces) l')
        (upload_file file file_size path l)
unfolding upload_file
upload_file_lem n file size path l h =
    OnSuccess-bind (SendsFrame l upload path) Q (send_remote_io_command upload (some path)) _ l
      (send_remote_io_command-Frame upload path l)
      λ _ l₁ (command, fc, x₁).
        OnSuccess-bind (TakesFrame l₁) Q read_remote_io_reply _ l₁ (read_remote_io_reply-Frame l₁)
          λ r l₂ (reply, fr, x₂). OnSuccess-guard Q (r.status == 0) _ l₂ λ ok.
            OnSuccess-bind (Sends l₂ (be32 size)) Q (write_all_to_device (be32 size)) _ l₂
              (write_all_to_device_lem (be32 size) l₂)
              λ _ l₃ x₃.
                OnSuccess-bind (Streams l₃ file.pieces 0) Q (stream_all file.pieces 0) _ l₃
                  (stream_all_lem n file.pieces 0 l₃ (omega arith) h)
                  λ sum l₄ (es, x₄). OnSuccess-guard Q (not file.read_error) _ l₄ λ _.
                    OnSuccess-bind (Sends l₄ (sum ∷ [])) Q (write_all_to_device (sum ∷ [])) _ l₄
                      (write_all_to_device_lem (sum ∷ []) l₄)
                      λ _ l₅ x₅.
                        OnSuccess-bind (TakesByte l₅) Q read_byte _ l₅ (read_byte_lem l₅) λ b l₆ x₆.
                          OnSuccess-test Q (b == 0) l₆ λ zero_result. (
                            command,
                            reply,
                            r.payload,
                            fc,
                            Frame-at r.status 0 r.payload reply ((==_iff r.status 0).0 ok) fr,
                            Exchange-at l l₆ _ _ _ _
                                (ap
                                  (λ c. command ++ (be32 size ++ (concat file.pieces ++ (c ∷ []))))
                                  es)
                                (ap (λ c. reply ++ (c ∷ [])) ((==_iff b 0).0 zero_result))
                                (Exchange-then l l₁ l₆ command _ [] _ x₁ (
                                  Exchange-then l₁ l₂ l₆ [] _ reply _ x₂ (
                                    Exchange-then l₂ l₃ l₆ (be32 size) _ [] (b ∷ []) x₃ (
                                      Exchange-then l₃ l₄ l₆ (concat file.pieces) _ [] (b ∷ []) x₄ (
                                        Exchange-then l₄ l₅ l₆ (sum ∷ []) [] [] (b ∷ []) x₅ x₆))))),
                          )
  where
    Q : Unit {0} → Link → Type 0
    Q _ l' = Uploaded l size path (concat file.pieces) l'

-- `Q` holds if the function returns true.
abbrev pub IfTrue : (Link → Type 0) → Bool → Link → Type 0
IfTrue Q true l = Q l
IfTrue Q false l = Unit {0}

IfTrue-if :
    (Q : Link → Type 0) (t : Bool) (r q : Run Bool)
    → Ensures (IfTrue Q) r
    → Ensures (IfTrue Q) q
    → Ensures (IfTrue Q) (if t then r else q)
IfTrue-if Q true r q h g = h
IfTrue-if Q false r q h g = g

succeeds_lem :
    (Q : Link → Type 0) (steps : Attempt (Unit {0})) (l : Link)
    → OnSuccess (λ _ l'. Q l') (steps l)
    → Ensures (IfTrue Q) (succeeds steps l)
unfolding succeeds
succeeds_lem Q steps l h =
    Ensures-either_way (λ _ l'. Q l') (IfTrue Q) steps false (λ _. value true) l h (λ _. tt)
      (λ _ l' q. q)

upload_sized_lem :
    (strtoul : List ℕ → ℕ × ℕ) (file : HostFile) (host_filename path : List ℕ) (n : ℕ)
    (o : Option ℕ) (file_size uninitialised : ℕ) (l : Link)
    → o ≡ some file_size
    → All (IsPiece n) file.pieces
    → Ensures
        (IfTrue (Uploaded l file_size (47 ∷ path) (concat file.pieces)))
        (upload_sized strtoul file host_filename o (some (47 ∷ path)) uninitialised l)
unfolding upload_sized upload_opened
upload_sized_lem strtoul file host_filename path n o size uninitialised l e h = rw e (
    IfTrue-if (Uploaded l size (47 ∷ path) (concat file.pieces)) (ltb 0xffff_ffff size) _ _ tt (
      IfTrue-if (Uploaded l size (47 ∷ path) (concat file.pieces)) file.opens _ _
        (succeeds_lem (Uploaded l size (47 ∷ path) (concat file.pieces))
          (upload_file file size (47 ∷ path)) l (upload_file_lem n file size (47 ∷ path) l h))
        tt))

-- A success of `DoSdUpload` for a path that begins with '/' means that the whole file arrived: the
-- host has sent one `UPLOAD` command with the path, the file's size, its bytes in order and each
-- once, and their checksum, and nothing else; and it has taken one OK reply and the result 0, and
-- nothing else. This holds whatever the driver does, and also when the program is interrupted. The
-- pieces are what `fread` gives.
pub do_sd_upload_sound :
    (strtoul : List ℕ → ℕ × ℕ) (file : HostFile) (host_filename path : List ℕ)
    (n file_size uninitialised : ℕ) (l : Link)
    → file.size ≡ some file_size
    → All (IsPiece n) file.pieces
    → Ensures
        (IfTrue (Uploaded l file_size (47 ∷ path) (concat file.pieces)))
        (do_sd_upload strtoul file host_filename (some (47 ∷ path)) uninitialised l)
unfolding do_sd_upload
do_sd_upload_sound strtoul file host_filename path n size uninitialised l e h =
    upload_sized_lem strtoul file host_filename path n file.size size uninitialised l e h
