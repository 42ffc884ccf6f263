-- ===== src/Xfer/Receive.antt =====
-- What the read loop of `DoDownload` of src/xfer.cpp takes from the device.
use ftx.Base.{ℕ, zero, suc, ◌-◌, ◌≤◌, min, ◌≡◌, ◌⊎◌, inl, inr, refl, sym, ap, ◌∙◌, arith}
use ftx.Base.{Bool, true, false, List, [], ◌∷◌, ◌++◌, append_assoc, append-nil, Option, none}
use ftx.Base.{some, length, take-append-drop, length-append, length-take}
use ftx.Base.{if◌then◌else◌}
use ftx.Base.{All, ◌<◌}
use ftx.Checksum.{crc_usbdc_update}
use ftx.Checksum.Crc8.{IsByte, crc_usbdc_update-append, crc_usbdc_update-lt, crc_usbdc_update-nil}
use ftx.Xfer.SdDownloads.{All-left}
use ftx.Xfer.Link.{Answer, failed, moved, Link, Run, value, answer_read}
use ftx.Xfer.Exchange.{Ensures, Ensures-bind, Ensures-weaken}
use ftx.Xfer.Direct.{receive_loop}

-- A part of the link's bytes has been taken, and nothing was sent; the interrupt flag stays raised.
abbrev pub Takes : Link → List ℕ → Link → Type 0
Takes l bytes l' =
    (l.incoming ≡ bytes ++ l'.incoming)
    × (l'.sent ≡ l.sent)
    × (l.interrupted ≡ true → l'.interrupted ≡ true)

pub Takes-then :
    (l l' l'' : Link) (xs ys : List ℕ) → Takes l xs l' → Takes l' ys l'' → Takes l (xs ++ ys) l''
Takes-then l l' l'' xs ys (a, b, c) (d, e, f) =
    (a ∙ ap (λ t. xs ++ t) d ∙ sym (append_assoc xs ys l''.incoming), e ∙ b, λ h. f (c h))

abbrev pub Read : ℕ → Link → Option (List ℕ) → Link → Type 0
Read size l none l' = Unit {0}
Read size l (some bytes) l' = Takes l bytes l' × (length bytes ≤ size)

pub answer_read_lem :
    (answers : List Answer) (size : ℕ) (l : Link)
    → Ensures (Read size l) (answer_read answers size l)
answer_read_lem [] size l = tt
answer_read_lem (failed ∷ more) size l = tt
answer_read_lem (moved n raised ∷ more) size l = (
  (sym (take-append-drop (min n size) l.incoming), refl, λ h. rw h refl),
  omega (arith, length-take (min n size) l.incoming),
)

-- The loop that was not cut off by a failure: what it adds to the file, and the checksum.
abbrev pub Got : Link → ℕ → ℕ → List ℕ → List ℕ × Option ℕ → Link → Type 0
Got l left c got (bytes, none) l' = Unit {0}
Got l left c got (bytes, some sum) l' =
    (new : List ℕ) × (bytes ≡ got ++ new)
    × Takes l new l'
    × (sum ≡ crc_usbdc_update c new)
    × ((length new ≡ left) ⊎ (l'.interrupted ≡ true))

pub IsByte-taken :
    (l l' : Link) (bytes : List ℕ)
    → All IsByte l.incoming
    → Takes l bytes l'
    → All IsByte bytes × All IsByte l'.incoming
IsByte-taken l l' bytes h (e, es, ei) = All-left IsByte bytes l'.incoming (rw (sym e) h)

Got-after :
    (l l' l'' : Link) (left c : ℕ) (got chunk : List ℕ) (result : List ℕ × Option ℕ)
    → c < 256
    → All IsByte l.incoming
    → Takes l chunk l'
    → length chunk ≤ left
    → Got l' (left - length chunk) (crc_usbdc_update c chunk) (got ++ chunk) result l''
    → Got l left c got result l''
Got-after l l' l'' left c got chunk (bytes, none) hc hb t h g = tt
Got-after l l' l'' left c got chunk (bytes, some sum) hc hb t h (new, eb, t', es, done) =
    let (b, b') = IsByte-taken l l' chunk hb t in
    (
      chunk ++ new,
      eb ∙ append_assoc got chunk new,
      Takes-then l l' l'' chunk new t t',
      es ∙ sym (crc_usbdc_update-append c chunk new hc b (IsByte-taken l' l'' new b' t').0),
      elim done [ inl e ↦ inl (omega (arith, length-append chunk new)) | inr raised ↦ inr raised ],
    )

Got-still :
    (l l' l'' : Link) (left c : ℕ) (got : List ℕ) (result : List ℕ × Option ℕ)
    → Takes l [] l'
    → Got l' left c got result l''
    → Got l left c got result l''
Got-still l l' l'' left c got (bytes, none) t g = tt
Got-still l l' l'' left c got (bytes, some sum) t (new, eb, t', es, done) =
    (new, eb, Takes-then l l' l'' [] new t t', es, done)

pub Ensures-if :
    {A : Type 0} (Q : A → Link → Type 0) (t : Bool) (r q : Run A)
    → (t ≡ true → Ensures Q r)
    → Ensures Q q
    → Ensures Q (if t then r else q)
Ensures-if Q true r q h g = h refl
Ensures-if Q false r q h g = g

pub receive_loop_lem :
    (answers : List Answer) (left c : ℕ) (got : List ℕ) (l : Link)
    → c < 256
    → All IsByte l.incoming
    → Ensures (Got l left c got) (receive_loop answers left c got l)
unfolding receive_loop
receive_loop_lem answers zero c got l hc hb =
    ([], sym (append-nil got), (refl, refl, λ h. h), sym (crc_usbdc_update-nil c hc), inl refl)
receive_loop_lem [] (suc left) c got l hc hb =
    Ensures-if (Got l (suc left) c got) l.interrupted _ _
      (λ e.
        ([], sym (append-nil got), (refl, refl, λ h. h), sym (crc_usbdc_update-nil c hc), inr e))
      tt
receive_loop_lem (a ∷ more) (suc left) c got l hc hb =
    Ensures-if (Got l (suc left) c got) l.interrupted _ _
      (λ e.
        ([], sym (append-nil got), (refl, refl, λ h. h), sym (crc_usbdc_update-nil c hc), inr e))
      (Ensures-bind (Read (min 65536 (suc left)) l) (Got l (suc left) c got)
        (answer_read (a ∷ more) (min 65536 (suc left)) l) _
        (answer_read_lem (a ∷ more) (min 65536 (suc left)) l)
        λ rc l' r. next (λ k d bytes m hd hm. receive_loop_lem more k d bytes m hd hm) rc l' r)
  where
    next :
        ((k d : ℕ) (bytes : List ℕ) (m : Link)
          → d < 256
          → All IsByte m.incoming
          → Ensures (Got m k d bytes) (receive_loop more k d bytes m))
        → (rc : Option (List ℕ)) (l' : Link) → Read (min 65536 (suc left)) l rc l'
        → Ensures (Got l (suc left) c got) (elim rc [
          | none ↦ value (got, none) l'
          | some [] ↦ receive_loop more (suc left) c got l'
          | some (b ∷ bs) ↦
              receive_loop more
                (suc left - length (b ∷ bs))
                (crc_usbdc_update c (b ∷ bs))
                (got ++ (b ∷ bs))
                l'
        ])
    next again none l' r = tt
    next again (some []) l' (t, h) =
        Ensures-weaken (Got l' (suc left) c got) (Got l (suc left) c got) _
          (again (suc left) c got l' hc (IsByte-taken l l' [] hb t).1)
          λ result l'' g. Got-still l l' l'' (suc left) c got result t g
    next again (some (b ∷ bs)) l' (t, h) =
        let both = IsByte-taken l l' (b ∷ bs) hb t in
        Ensures-weaken
          (Got l' (suc left - length (b ∷ bs)) (crc_usbdc_update c (b ∷ bs)) (got ++ (b ∷ bs)))
          (Got l (suc left) c got) _
          (again (suc left - length (b ∷ bs)) (crc_usbdc_update c (b ∷ bs)) (got ++ (b ∷ bs)) l'
            (crc_usbdc_update-lt c (b ∷ bs) hc both.0) both.1)
          λ result l'' g.
            Got-after l l' l'' (suc left) c got (b ∷ bs) result hc hb t (omega arith) g
