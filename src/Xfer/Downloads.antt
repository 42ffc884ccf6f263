-- ===== src/Xfer/Downloads.antt =====
-- What a success of `DoDownload` of src/xfer.cpp says of the file that it leaves.
use ftx.Base.{ℕ, zero, suc, ◌≤◌, min, ◌≡◌, ◌⊎◌, inl, inr, refl, sym, ap, ◌∙◌, arith}
use ftx.Base.{Bool, true, false, List, [], ◌∷◌, ◌++◌, Option, none}
use ftx.Base.{some, length, take, ◌==◌, ==_iff}
use ftx.Base.{if◌then◌else◌}
use ftx.Base.{All}
use ftx.Checksum.{crc_usbdc_update}
use ftx.Checksum.Crc8.{IsByte}
use ftx.Xfer.SdDownloads.{IfSaved}
use ftx.Xfer.Interrupt.{stopped}
use ftx.Xfer.Upload.{calm}
use ftx.Xfer.Link.{Answer, failed, moved, Link, value, bind, answer_read}
use ftx.Xfer.Link.{answer_write, ftdi_write_data}
use ftx.Xfer.Exchange.{Ensures, Ensures-bind, Ensures-weaken}
use ftx.Xfer.Direct.{command_bytes, send_command_with_address_and_length, read_status, await_status}
use ftx.Xfer.Direct.{receive_loop, receive, check_sum, conclude, take_in, do_download}
use ftx.Xfer.Receive.{Takes, Takes-then, Read, answer_read_lem, Got, Ensures-if, receive_loop_lem}

-- The read of the checksum.
abbrev Told : Link → Option (Option ℕ) → Link → Type 0
Told l none l' = Unit {0}
Told l (some none) l' = Takes l [] l' × (l'.interrupted ≡ true)
Told l (some (some b)) l' = Takes l (b ∷ []) l'

Told-after :
    (l l' l'' : Link) (got : Option (Option ℕ)) → Takes l [] l' → Told l' got l'' → Told l got l''
Told-after l l' l'' none t h = tt
Told-after l l' l'' (some none) t (t', e) = (Takes-then l l' l'' [] [] t t', e)
Told-after l l' l'' (some (some b)) t t' = Takes-then l l' l'' [] (b ∷ []) t t'

read_status_lem : (answers : List Answer) (l : Link) → Ensures (Told l) (read_status answers l)
unfolding read_status
read_status_lem [] l = tt
read_status_lem (a ∷ more) l =
    Ensures-bind (Read 1 l) (Told l) (answer_read (a ∷ more) 1 l) _ (answer_read_lem (a ∷ more) 1 l)
      λ rc l' r. next (λ m. read_status_lem more m) rc l' r
  where
    next :
        ((m : Link) → Ensures (Told m) (read_status more m))
        → (rc : Option (List ℕ)) (l' : Link) → Read 1 l rc l'
        → Ensures (Told l) (elim rc [
          | none ↦ value none l'
          | some [] ↦
              let again = read_status more l' in
              if l'.interrupted then value (some none) l' else again
          | some (b ∷ _) ↦ value (some (some b)) l'
        ])
    next again none l' r = tt
    next again (some []) l' (t, h) =
        Ensures-if (Told l) l'.interrupted _ _ (λ e. (t, e))
          (Ensures-weaken (Told l') (Told l) _ (again l') λ got l'' g. Told-after l l' l'' got t g)
    next again (some (b ∷ [])) l' (t, h) = t
    next again (some (b ∷ c ∷ cs)) l' (t, h) = absurd (omega arith)

-- A download that is reported as successful: the driver took the command or a first part of it, and
-- the file is what came, of the length asked for and followed by its checksum, unless the program
-- was interrupted; then it is a first part of what came.
abbrev pub Saved : Link → ℕ → ℕ → List ℕ → Link → Type 0
Saved l address size file l' =
    (k : ℕ) × (l'.sent ≡ l.sent ++ take k (command_bytes 1 address size))
    × (((length file ≡ size) × (l.incoming ≡ file ++ (crc_usbdc_update 0 file ∷ l'.incoming)))
        ⊎ ((l'.interrupted ≡ true) × ((more : List ℕ) × (l.incoming ≡ file ++ more))))

IfSaved-if :
    (Q : List ℕ → Link → Type 0) (bytes : List ℕ) (t : Bool) (l : Link)
    → (t ≡ true → Q bytes l)
    → IfSaved Q (bytes, t) l
IfSaved-if Q bytes true l h = h refl
IfSaved-if Q bytes false l h = tt

abbrev Commanded : Link → List ℕ → Option ℕ → Link → Type 0
Commanded l command none l' = Unit {0}
Commanded l command (some written) l' =
    (l'.sent ≡ l.sent ++ take written command) × (l'.incoming ≡ l.incoming)

Commanded-answer_write :
    (answers : List Answer) (command : List ℕ) (l : Link)
    → Ensures (Commanded l command) (answer_write answers command l)
Commanded-answer_write [] command l = tt
Commanded-answer_write (failed ∷ more) command l = tt
Commanded-answer_write (moved n raised ∷ more) command l = (refl, refl)

module _ (l : Link) (address size : ℕ) where
  finished :
      (written : ℕ) (l₁ l₂ l₃ : Link) (bytes : List ℕ) (sum : ℕ) (got : Option (Option ℕ))
      → Commanded l (command_bytes 1 address size) (some written) l₁
      → Got l₁ size 0 [] (bytes, some sum) l₂
      → Told l₂ got l₃
      → IfSaved (Saved l address size) (bytes, check_sum sum got) l₃
  unfolding check_sum
  finished written l₁ l₂ l₃ bytes sum none (es, ei) g t = tt
  finished written l₁ l₂ l₃ bytes sum (some none) (es, ei) (new, eb, t, e, done)
        ((a, b, c), raised) =
      IfSaved-if (Saved l address size) bytes (0 == sum) l₃ λ ok. (
        written,
        b ∙ t.1 ∙ es,
        inr (raised, (l₂.incoming, sym ei ∙ t.0 ∙ ap (λ f. f ++ l₂.incoming) (sym eb))),
      )
  finished written l₁ l₂ l₃ bytes sum (some (some x)) (es, ei) (new, eb, t, e, inl len) (a, b, c) =
      IfSaved-if (Saved l address size) bytes (x == sum) l₃ λ ok.
        let ex : x ≡ crc_usbdc_update 0 new = (==_iff x sum).0 ok ∙ e in
        (
          written,
          b ∙ t.1 ∙ es,
          inl (
            ap length eb ∙ len,
            sym ei
                ∙ t.0
                ∙ ap (λ r. new ++ r) a
                ∙ ap (λ y. new ++ (y ∷ l₃.incoming)) ex
                ∙ ap (λ f. f ++ (crc_usbdc_update 0 f ∷ l₃.incoming)) (sym eb),
          ),
        )
  finished written l₁ l₂ l₃ bytes sum (some (some x)) (es, ei) (new, eb, t, e, inr raised)
        (a, b, c) =
      IfSaved-if (Saved l address size) bytes (x == sum) l₃ λ ok. (
        written,
        b ∙ t.1 ∙ es,
        inr (c raised, (l₂.incoming, sym ei ∙ t.0 ∙ ap (λ f. f ++ l₂.incoming) (sym eb))),
      )

  conclude_lem :
      (written : ℕ) (l₁ l₂ : Link) (received : List ℕ × Option ℕ)
      → Commanded l (command_bytes 1 address size) (some written) l₁
      → Got l₁ size 0 [] received l₂
      → Ensures (IfSaved (Saved l address size)) (conclude received l₂)
  unfolding conclude await_status
  conclude_lem written l₁ l₂ (bytes, none) w g = tt
  conclude_lem written l₁ l₂ (bytes, some sum) w g =
      Ensures-bind (Told l₂) (IfSaved (Saved l address size)) (read_status l₂.answers l₂) _
        (read_status_lem l₂.answers l₂) λ got l₃ t. finished written l₁ l₂ l₃ bytes sum got w g t

  take_in_lem :
      (rc : Option ℕ) (l₁ : Link)
      → All IsByte l.incoming
      → Commanded l (command_bytes 1 address size) rc l₁
      → Ensures (IfSaved (Saved l address size)) (take_in size rc l₁)
  unfolding take_in receive
  take_in_lem none l₁ hb w = tt
  take_in_lem (some written) l₁ hb w =
      Ensures-bind (Got l₁ size 0 []) (IfSaved (Saved l address size))
        (receive_loop l₁.answers size 0 [] l₁) _
        (receive_loop_lem l₁.answers size 0 [] l₁ (omega arith) (rw (w.1) hb))
        λ received l₂ g. conclude_lem written l₁ l₂ received w g

  -- Whatever the driver does, and also when the program is interrupted: a success of `DoDownload`
  -- means that the driver took its command or a first part of it, and that the output file holds
  -- the bytes that came, as many as were asked for, and was followed by its checksum; or that the
  -- program was interrupted, when the file holds a first part of what came. The device's bytes are
  -- below 256, and writing to the file succeeds.
  pub do_download_sound :
      (opens : Bool)
      → All IsByte l.incoming
      → Ensures (IfSaved (Saved l address size)) (do_download opens address size l)
  unfolding do_download send_command_with_address_and_length ftdi_write_data
  do_download_sound false hb = tt
  do_download_sound true hb =
      Ensures-bind (Commanded l (command_bytes 1 address size)) (IfSaved (Saved l address size))
        (answer_write l.answers (command_bytes 1 address size) l) _
        (Commanded-answer_write l.answers (command_bytes 1 address size) l)
        λ rc l₁ w. take_in_lem rc l₁ hb w

-- A code bug: a download that is interrupted while its command is sent, by a device that then gives
-- nothing, reports success and leaves an empty file, whatever number of bytes was asked for: the
-- checksum read is still the 0 that it began with, which is also that of no bytes.
pub download_interrupted :
    (n address size recv_buf : ℕ) (raised : Bool) (later : List Answer) (incoming sent : List ℕ)
    → 9 ≤ n
    → do_download true address size
        (calm (moved n true ∷ moved 0 raised ∷ later) incoming sent recv_buf)
      ≡ value ([], true) (stopped later incoming (sent ++ command_bytes 1 address size) recv_buf)
unfolding do_download send_command_with_address_and_length ftdi_write_data take_in receive conclude
    await_status check_sum read_status command_bytes receive_loop
download_interrupted n address size recv_buf raised later incoming sent h =
    let all : min n 9 ≡ 9 = omega arith in rw all (loop size)
  where
    l : Link
    l = stopped (moved 0 raised ∷ later) incoming (sent ++ command_bytes 1 address size) recv_buf

    loop :
        (left : ℕ)
        → bind (receive_loop (moved 0 raised ∷ later) left 0 [] l) conclude
          ≡ value
              ([], true)
              (stopped later incoming (sent ++ command_bytes 1 address size) recv_buf)
    loop zero = refl
    loop (suc left) = refl
