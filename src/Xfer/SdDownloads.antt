-- ===== src/Xfer/SdDownloads.antt =====
-- What a success of `DoSdDownload` of src/xfer.cpp says: the exchange that took place on the wire.
use ftx.Base.{ℕ, zero, suc, ◌+◌, ◌-◌, ◌*◌, ◌≤◌, ◌<◌, min, ◌≡◌, refl, sym, ap, ◌∙◌, arith}
use ftx.Base.{Bool, true, false, List, [], ◌∷◌, ◌++◌, append-nil, append_assoc}
use ftx.Base.{Option, none, some, length, length-append, get_or, leb, leb→le, ◌==◌, ==_iff, All}
use ftx.Checksum.{crc_usbdc_update}
use ftx.Checksum.Crc8.{IsByte, crc_usbdc_update-append, crc_usbdc_update-lt, crc_usbdc_update-nil}
use ftx.Xfer.Link.{Link, value}
use ftx.Xfer.Remote.{download, Reply, patience, read_exact_from_device, send_remote_io_command}
use ftx.Xfer.Remote.{read_remote_io_reply}
use ftx.Xfer.Remote.Framing.{Frame, Frame-at, OnSuccess-guard, send_remote_io_command-Frame}
use ftx.Xfer.Remote.Framing.{read_remote_io_reply-Frame}
use ftx.Xfer.Exchange.{Exchange, Exchange-at, Exchange-nothing, Exchange-then, Ensures, OnSuccess}
use ftx.Xfer.Exchange.{OnSuccess-bind, OnSuccess-weaken, Ensures-either_way, Ensures-bind}
use ftx.Xfer.Exchange.{Ensures-weaken, read_exact_from_device_lem}
use ftx.Xfer.SdTransfer.{read_byte, receive_chunks, compare_checksum, announced_size}
use ftx.Xfer.SdTransfer.{do_sd_download}
use ftx.Xfer.SdUploads.{SendsFrame, TakesFrame, TakesByte, read_byte_lem}

pub All-left :
    {A : Type 0} (P : A → Type 0) (xs ys : List A) → All P (xs ++ ys) → All P xs × All P ys
All-left P [] ys h = (tt, h)
All-left P (x ∷ xs) ys (h, hs) = let (a, b) = All-left P xs ys hs in ((h, a), b)

-- The loop to its end adds the bytes that were left to those that it had.
abbrev Received : Link → ℕ → ℕ → List ℕ → List ℕ × Option ℕ → Link → Type 0
Received l left c got (bytes, none) l' = Unit {0}
Received l left c got (bytes, some sum) l' =
    (new : List ℕ) × (bytes ≡ got ++ new)
    × (length new ≡ left)
    × (sum ≡ crc_usbdc_update c new)
    × Exchange l [] new l'

pub All-incoming :
    (l l' : Link) (out inn : List ℕ)
    → All IsByte l.incoming
    → Exchange l out inn l'
    → All IsByte inn × All IsByte l'.incoming
All-incoming l l' out inn h (_, xi) = All-left IsByte inn l'.incoming (rw (sym xi) h)

Received-after :
    (l l' : Link) (left part c : ℕ) (got chunk : List ℕ) (result : List ℕ × Option ℕ) (l'' : Link)
    → c < 256
    → All IsByte chunk × All IsByte l'.incoming
    → part ≤ left
    → length chunk ≡ part
    → Exchange l [] chunk l'
    → Received l' (left - part) (crc_usbdc_update c chunk) (got ++ chunk) result l''
    → Received l left c got result l''
Received-after l l' left part c got chunk (bytes, none) l'' hc hb hp e x h = tt
Received-after l l' left part c got chunk (bytes, some sum) l'' hc (hb, hb') hp e x
      (new, eb, en, es, y) =
    (
      chunk ++ new,
      eb ∙ append_assoc got chunk new,
      omega (arith, length-append chunk new),
      es ∙ sym (crc_usbdc_update-append c chunk new hc hb (All-incoming l' l'' [] new hb' y).0),
      Exchange-then l l' l'' [] [] chunk new x y,
    )

receive_chunks_lem :
    (fuel left c : ℕ) (got : List ℕ) (l : Link)
    → c < 256
    → All IsByte l.incoming
    → Ensures (Received l left c got) (receive_chunks fuel left c got l)
unfolding receive_chunks
receive_chunks_lem fuel zero c got l hc hb =
    ([], sym (append-nil got), refl, sym (crc_usbdc_update-nil c hc), Exchange-nothing l)
receive_chunks_lem zero (suc left) c got l hc hb = tt
receive_chunks_lem (suc fuel) (suc left) c got l hc hb =
    Ensures-either_way (λ chunk l'. (length chunk ≡ min 4096 (suc left)) × Exchange l [] chunk l')
      (Received l (suc left) c got) (read_exact_from_device (min 4096 (suc left)) patience)
      (got, none) _ l (read_exact_from_device_lem (min 4096 (suc left)) patience l) (λ _. tt)
      λ chunk l' (e, x).
        let both : All IsByte chunk × All IsByte l'.incoming = All-incoming l l' [] chunk hb x in
        Ensures-weaken
          (Received l' (suc left - min 4096 (suc left)) (crc_usbdc_update c chunk) (got ++ chunk))
          (Received l (suc left) c got) _
          (receive_chunks_lem fuel (suc left - min 4096 (suc left)) (crc_usbdc_update c chunk)
            (got ++ chunk) l' (crc_usbdc_update-lt c chunk hc both.0) both.1)
          λ result l'' r.
            Received-after l l' (suc left) (min 4096 (suc left)) c got chunk result l'' hc both
              (omega arith) e x r

-- The size that a reply's payload announces, in its first four bytes.
abbrev pub Announces : List ℕ → ℕ → Type 0
Announces payload size =
    (a : ℕ) × (b : ℕ) × (c : ℕ) × (d : ℕ) × (more : List ℕ) × (payload ≡ a ∷ b ∷ c ∷ d ∷ more)
    × (size ≡ ((a * 256 + b) * 256 + c) * 256 + d)

Announces-at : (payload : List ℕ) (m n : ℕ) → m ≡ n → Announces payload m → Announces payload n
Announces-at payload m n e h = rw (sym e) h

announced_size_lem :
    (r : Reply) (l : Link)
    → OnSuccess
        (λ size l'. (r.status ≡ 0) × Announces r.payload size × (l' ≡ l))
        (announced_size r l)
unfolding announced_size
announced_size_lem r l = OnSuccess-guard Q (r.status == 0) _ l λ ok.
    OnSuccess-guard Q (leb 4 (length r.payload)) _ l
      λ long. ((==_iff r.status 0).0 ok, four r.payload (leb→le 4 _ long), refl)
  where
    Q : ℕ → Link → Type 0
    Q size l' = (r.status ≡ 0) × Announces r.payload size × (l' ≡ l)

    four :
        (payload : List ℕ)
        → 4 ≤ length payload
        → Announces payload (
            ((get_or payload 0 0 * 256 + get_or payload 1 0) * 256 + get_or payload 2 0) * 256
            + get_or payload 3 0)
    four (a ∷ b ∷ c ∷ d ∷ more) h = (a, b, c, d, more, refl, refl)
    four payload h = absurd (omega arith)

-- A download of `path` that went through: one `DOWNLOAD` command was sent, and the console answered
-- with OK and the file's size, the file, and the file's checksum.
abbrev pub Downloaded : Link → List ℕ → List ℕ → Link → Type 0
Downloaded l path bytes l' =
    (command : List ℕ) × (reply : List ℕ) × (payload : List ℕ) × Frame 8 path command
    × Frame 0 payload reply
    × Announces payload (length bytes)
    × Exchange l command (reply ++ (bytes ++ (crc_usbdc_update 0 bytes ∷ []))) l'

-- `Q` holds of the output file if the function returns true.
abbrev pub IfSaved : (List ℕ → Link → Type 0) → List ℕ × Bool → Link → Type 0
IfSaved Q (bytes, true) l = Q bytes l
IfSaved Q (bytes, false) l = Unit {0}

IfSaved-weaken :
    (P Q : List ℕ → Link → Type 0) (result : List ℕ × Bool) (l : Link)
    → IfSaved P result l
    → ((bytes : List ℕ) → P bytes l → Q bytes l)
    → IfSaved Q result l
IfSaved-weaken P Q (bytes, true) l h w = w bytes h
IfSaved-weaken P Q (bytes, false) l h w = tt

-- The file and its checksum, after the reply.
abbrev Completed : Link → ℕ → List ℕ → Link → Type 0
Completed l size file l' =
    (length file ≡ size) × Exchange l [] (file ++ (crc_usbdc_update 0 file ∷ [])) l'

compare_checksum_lem :
    (l l' : Link) (size : ℕ) (bytes : List ℕ) (sum : Option ℕ)
    → Received l size 0 [] (bytes, sum) l'
    → Ensures (IfSaved (Completed l size)) (compare_checksum bytes sum l')
unfolding compare_checksum
compare_checksum_lem l l' size bytes none h = tt
compare_checksum_lem l l' size bytes (some sum) (new, eb, en, es, x) =
    Ensures-either_way (TakesByte l') _ read_byte (bytes, false) (λ b. value (bytes, b == sum)) l'
      (read_byte_lem l') (λ _. tt) λ b l'' y. verdict b l'' y (b == sum) (λ e. (==_iff b sum).0 e)
  where
    verdict :
        (b : ℕ) (l'' : Link)
        → TakesByte l' b l''
        → (t : Bool) → (t ≡ true → b ≡ sum)
        → IfSaved (Completed l size) (bytes, t) l''
    verdict b l'' y true h = rw eb (
      en,
      Exchange-at l l'' [] [] _ _ refl (ap (λ c. new ++ (c ∷ [])) (h refl ∙ es))
          (Exchange-then l l' l'' [] [] new (b ∷ []) x y),
    )
    verdict b l'' y false h = tt

-- A success of `DoSdDownload` means that the file is intact: the host has sent one `DOWNLOAD`
-- command with the path, and nothing else; it has taken one OK reply, as many bytes as the reply
-- announces, and one byte more; and the output file holds those bytes in order, whose checksum is
-- that last byte. This holds whatever the driver does, and also when the program is interrupted.
pub do_sd_download_sound :
    (path : List ℕ) (opens : Option Bool) (l : Link)
    → All IsByte l.incoming
    → Ensures (IfSaved (Downloaded l path)) (do_sd_download (some path) opens l)
unfolding do_sd_download
do_sd_download_sound path none l hb = tt
do_sd_download_sound path (some false) l hb = tt
do_sd_download_sound path (some true) l hb =
    Ensures-either_way Asked (IfSaved (Downloaded l path)) _ ([], false) _ l
      (OnSuccess-bind (SendsFrame l download path) Asked
        (send_remote_io_command download (some path)) _ l
        (send_remote_io_command-Frame download path l)
        λ _ l₁ (command, fc, x₁).
          OnSuccess-bind (TakesFrame l₁) Asked read_remote_io_reply _ l₁
            (read_remote_io_reply-Frame l₁)
            λ r l₂ (reply, fr, x₂).
              OnSuccess-weaken (λ size l'. (r.status ≡ 0) × Announces r.payload size × (l' ≡ l₂))
                Asked _ (announced_size_lem r l₂)
                λ size l₃ (ok, announced, e). (
                  command,
                  reply,
                  r.payload,
                  fc,
                  Frame-at r.status 0 r.payload reply ok fr,
                  announced,
                  rw e (
                      Exchange-at l l₂ _ _ _ _ (append-nil command) refl
                        (Exchange-then l l₁ l₂ command [] [] reply x₁ x₂)),
                ))
      (λ _. tt)
      λ size l₃ (command, reply, payload, fc, fr, announced, x).
        Ensures-bind (Received l₃ size 0 []) (IfSaved (Downloaded l path))
          (receive_chunks size size 0 [] l₃) _
          (receive_chunks_lem size size 0 [] l₃ (omega arith)
            (All-incoming l l₃ command reply hb x).1)
          λ (bytes, sum) l₄ h.
            Ensures-weaken (IfSaved (Completed l₃ size)) (IfSaved (Downloaded l path)) _
              (compare_checksum_lem l₃ l₄ size bytes sum h)
              λ result l₅ saved.
                IfSaved-weaken (Completed l₃ size) (Downloaded l path) result l₅ saved
                  λ file (en, y). (
                    command,
                    reply,
                    payload,
                    fc,
                    fr,
                    Announces-at payload size (length file) (sym en) announced,
                    Exchange-at l l₅ _ _ _ _ (append-nil command) refl (
                        Exchange-then l l₃ l₅ command [] reply
                          (file ++ (crc_usbdc_update 0 file ∷ [])) x y),
                  )
  where
    Asked : ℕ → Link → Type 0
    Asked size l₃ =
        (command : List ℕ) × (reply : List ℕ) × (payload : List ℕ) × Frame 8 path command
        × Frame 0 payload reply
        × Announces payload size
        × Exchange l command reply l₃
