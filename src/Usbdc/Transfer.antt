-- ===== src/Usbdc/Transfer.antt =====
-- What a whole transfer does to the Saturn: `DoUpload` and `DoDownload` on the bytes that the
-- host sends.
use ftx.Base.{ℕ, ◌+◌, ◌%◌, ◌^◌, ◌≤◌, ◌<◌, ◌≡◌, ◌≢◌, ◌⊎◌, refl, sym, ap, ap₂, ◌∙◌}
use ftx.Base.{arith, List, [], ◌∷◌, ◌++◌, append_assoc, append-nil, bit_and, ◌==◌}
use ftx.Base.{if◌then◌else◌, length, eqb_of_ne, Bool-cases, inl, inr}
use ftx.Base.Bits.{bit_xor-zero}
use ftx.Base.Words.{be32}
use ftx.Checksum.{crc_usbdc_init, crc_usbdc_update, crc_usbdc_finalize}
use ftx.Usbdc.Machine.{Saturn, done, Memory, update, peek, poke}
use ftx.Usbdc.Machine.{recv_byte, send_byte, recv_into, send_all}
use ftx.Usbdc.Words.{feed, sent, recv_dword_lem}
use ftx.Usbdc.Handlers.{do_download, do_upload, fetch_word, source_bytes, recv_payload, sum_memory}

-- The checksum byte of a transfer.
unfoldable pub sum_of : List ℕ → ℕ
sum_of bytes = crc_usbdc_finalize (crc_usbdc_update crc_usbdc_init bytes)

pub recv_into_lem :
    (bytes rest : List ℕ) (a : ℕ) (s : Saturn)
    → recv_into (length bytes) a (feed s (bytes ++ rest))
      ≡ done tt (record s { mem = poke s.mem a bytes; fifo_in = rest })
unfolding recv_into recv_byte
recv_into_lem [] rest a s = refl
recv_into_lem (b ∷ bs) rest a s =
    recv_into_lem bs rest ((a + 1) % 2 ^ 32) (record s { mem = update s.mem a b })

pub send_all_lem : (bytes : List ℕ) (s : Saturn) → send_all bytes s ≡ done tt (sent s bytes)
unfolding send_all send_byte
send_all_lem [] s = ap (λ out. done tt (record s { fifo_out = out })) (sym (append-nil s.fifo_out))
send_all_lem (b ∷ bs) s =
    send_all_lem bs (sent s (b ∷ []))
    ∙ ap (λ out. done tt (record s { fifo_out = out })) (append_assoc s.fifo_out (b ∷ []) bs)

-- Bytes written from `a` on, none past the end of the address space, leave those below alone.
pub poke_below :
    (bytes : List ℕ) (mem : Memory) (a x : ℕ)
    → a + length bytes ≤ 2 ^ 32
    → x < a
    → poke mem a bytes x ≡ mem x
poke_below [] mem a x h lt = refl
poke_below (b ∷ []) mem a x h lt = rw (eqb_of_ne x a (omega arith))
poke_below (b ∷ c ∷ bs) mem a x h lt =
    poke_below (c ∷ bs) (update mem a b) ((a + 1) % 2 ^ 32) x (omega arith) (omega arith)
    ∙ rw (eqb_of_ne x a (omega arith))

-- Bytes written and read back at the same place are the same.
pub peek-poke :
    (bytes : List ℕ) (mem : Memory) (a : ℕ)
    → a + length bytes ≤ 2 ^ 32
    → peek (poke mem a bytes) a (length bytes) ≡ bytes
peek-poke [] mem a h = refl
peek-poke (b ∷ []) mem a h = ground arith
peek-poke (b ∷ c ∷ bs) mem a h =
    ap₂ ◌∷◌
      (poke_below (c ∷ bs) (update mem a b) ((a + 1) % 2 ^ 32) a (omega arith) (omega arith)
        ∙ ground arith)
      (peek-poke (c ∷ bs) (update mem a b) ((a + 1) % 2 ^ 32) (omega arith))

-- A payload that is no 2 or 4 byte access lands at its address, and its checksum is that of the
-- bytes received.
recv_payload_lem :
    (s : Saturn) (a : ℕ) (bytes rest : List ℕ)
    → a + length bytes ≤ 2 ^ 32
    → length bytes ≢ 2
    → length bytes ≢ 4
    → recv_payload a (length bytes) (feed s (bytes ++ rest))
      ≡ done (sum_of bytes) (record s { mem = poke s.mem a bytes; fifo_in = rest })
unfolding recv_payload sum_memory sum_of
recv_payload_lem s a bytes rest h n2 n4 =
    rw (eqb_of_ne (length bytes) 2 n2, eqb_of_ne (length bytes) 4 n4)
      (rw (recv_into_lem bytes rest a s) (
        ap (λ l. done (crc_usbdc_finalize (crc_usbdc_update crc_usbdc_init l)) after)
          (peek-poke bytes s.mem a h)))
  where
    after : Saturn
    after = record s { mem = poke s.mem a bytes; fifo_in = rest }

-- What `DoUpload` answers: 0 if the checksum sent is that of the data, else 1.
abbrev pub verdict : List ℕ → ℕ → ℕ
verdict bytes check = if sum_of bytes == check then 0 else 1

-- Given an address, a length, as many bytes and a checksum, `DoUpload` stores the bytes at the
-- address, changes no other memory, and answers whether the checksum is right; it takes no byte
-- more. This is for a block that ends within the address space, of a size other than 2 and 4.
pub do_upload_lem :
    (s : Saturn) (a : ℕ) (bytes : List ℕ) (check : ℕ) (rest : List ℕ)
    → a + length bytes ≤ 2 ^ 32
    → length bytes < 2 ^ 32
    → a < 2 ^ 32
    → length bytes ≢ 2
    → length bytes ≢ 4
    → do_upload (feed s (be32 a ++ (be32 (length bytes) ++ (bytes ++ (check ∷ rest)))))
      ≡ done tt (record s {
        mem = poke s.mem a bytes;
        fifo_in = rest;
        fifo_out = s.fifo_out ++ (verdict bytes check ∷ []);
      })
unfolding do_upload
do_upload_lem s a bytes check rest h hl ha n2 n4 =
    rw (recv_dword_lem s a (be32 (length bytes) ++ (bytes ++ (check ∷ rest))) ha) (
      rw (recv_dword_lem s (length bytes) (bytes ++ (check ∷ rest)) hl) (
        rw (recv_payload_lem s a bytes (check ∷ rest) h n2 n4)
          (unfold recv_byte send_byte in ground arith)))

-- An address and length that `DoDownload` serves from memory, byte by byte.
abbrev pub IsPlainRead : ℕ → ℕ → Type 0
IsPlainRead a len =
    (a < 2 ^ 32)
    × (len < 2 ^ 32)
    × (len ≢ 2)
    × (len ≢ 4)
    × ((bit_and a 0x0fff_ffff ≢ 0x007f_fff0) ⊎ (len ≢ 16))

source_bytes_lem :
    (s : Saturn) (a len : ℕ) → IsPlainRead a len → source_bytes a len s ≡ done (peek s.mem a len) s
unfolding source_bytes
source_bytes_lem s a len (ha, hl, n2, n4, inl ne) =
    rw (eqb_of_ne (bit_and a 0x0fff_ffff) 0x007f_fff0 ne) refl
source_bytes_lem s a len (ha, hl, n2, n4, inr ne) =
    elim (Bool-cases (bit_and a 0x0fff_ffff == 0x007f_fff0)) [
      | inl e ↦ rw (e, eqb_of_ne len 16 ne) refl
      | inr e ↦ rw e refl
    ]

-- `DoDownload` sends `len` bytes of memory and then their checksum, and leaves memory alone.
pub do_download_lem :
    (s : Saturn) (a len : ℕ) (rest : List ℕ)
    → IsPlainRead a len
    → do_download (feed s (be32 a ++ (be32 len ++ rest)))
      ≡ done tt (sent (feed s rest) (peek s.mem a len ++ (sum_of (peek s.mem a len) ∷ [])))
unfolding do_download sum_of
do_download_lem s a len rest h = rw (recv_dword_lem s a (be32 len ++ rest) h.0) (
    rw (recv_dword_lem s len rest h.1) (
      rw (fetch_lem (feed s rest)) (
        rw (source_bytes_lem (feed s rest) a len h) (
          rw (send_all_lem (peek s.mem a len) (feed s rest)) (
            unfold send_byte in
            ap (λ out. done tt (record s { fifo_in = rest; fifo_out = out }))
              (append_assoc s.fifo_out (peek s.mem a len) _))))))
  where
    fetch_lem : (t : Saturn) → fetch_word a len t ≡ done a t
    fetch_lem t = unfold fetch_word in rw (eqb_of_ne len 2 h.2, eqb_of_ne len 4 h.3) refl

-- Nor do they change what lies past them.
pub poke_above :
    (bytes : List ℕ) (mem : Memory) (a x : ℕ)
    → a + length bytes ≤ 2 ^ 32
    → a + length bytes ≤ x
    → poke mem a bytes x ≡ mem x
poke_above [] mem a x h ge = refl
poke_above (b ∷ []) mem a x h ge = rw (eqb_of_ne x a (omega arith))
poke_above (b ∷ c ∷ bs) mem a x h ge =
    poke_above (c ∷ bs) (update mem a b) ((a + 1) % 2 ^ 32) x (omega arith) (omega arith)
    ∙ rw (eqb_of_ne x a (omega arith))

-- The checksum byte is `crc_usbdc_update` from 0.
pub sum_of-update : (bytes : List ℕ) → sum_of bytes ≡ crc_usbdc_update 0 bytes
unfolding sum_of crc_usbdc_finalize crc_usbdc_init
sum_of-update bytes = bit_xor-zero (crc_usbdc_update 0 bytes)
