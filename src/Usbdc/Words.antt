-- ===== src/Usbdc/Words.antt =====
-- `RecvDword` and `SendDword` are inverse: what the one sends, or the host packs, the other reads.
use ftx.Base.{ℕ, ◌+◌, ◌*◌, ◌/◌, ◌^◌, ◌<◌, ◌≡◌, refl, ap, ◌∙◌, arith}
use ftx.Base.{List, ◌∷◌, ◌++◌, append_assoc, bit_or}
use ftx.Base.Bits.{bit_or_fields, bit_and_mask}
use ftx.Base.Words.{byte_of, be32, be32_value}
use native.Mathlib.Nat.{mod-eq_of_lt}
use ftx.Usbdc.Machine.{Saturn, done, shift_in, recv_byte, send_byte, recv_dword, send_dword}

-- The same state, with other bytes to come.
abbrev pub feed : Saturn → List ℕ → Saturn
feed s bytes = record s { fifo_in = bytes }

-- The same state, with more bytes sent.
abbrev pub sent : Saturn → List ℕ → Saturn
sent s bytes = record s { fifo_out = s.fifo_out ++ bytes }

shift_in-eq : (tmp byte : ℕ) → tmp < 2 ^ 24 → byte < 256 → shift_in tmp byte ≡ tmp * 2 ^ 8 + byte
unfolding shift_in
shift_in-eq tmp byte ht hb =
    ap (λ t. bit_or t byte) (mod-eq_of_lt (omega arith)) ∙ bit_or_fields 8 tmp byte (omega arith)

pub recv_byte_lem :
    (s : Saturn) (b : ℕ) (rest : List ℕ) → recv_byte (feed s (b ∷ rest)) ≡ done b (feed s rest)
unfolding recv_byte
recv_byte_lem s b rest = refl

-- `RecvDword` reads the number whose four bytes come next, highest first.
pub recv_dword_lem :
    (s : Saturn) (n : ℕ) (rest : List ℕ)
    → n < 2 ^ 32
    → recv_dword (feed s (be32 n ++ rest)) ≡ done n (feed s rest)
unfolding recv_dword recv_byte
recv_dword_lem s n rest h = ap (λ v. done v (feed s rest)) value
  where
    value :
        shift_in (shift_in (shift_in (byte_of n 24) (byte_of n 16)) (byte_of n 8)) (byte_of n 0) ≡ n
    value = rw (shift_in-eq (byte_of n 24) (byte_of n 16) (omega arith) (omega arith)) (
        rw
          (shift_in-eq (byte_of n 24 * 2 ^ 8 + byte_of n 16) (byte_of n 8) (omega arith)
            (omega arith))
          (shift_in-eq ((byte_of n 24 * 2 ^ 8 + byte_of n 16) * 2 ^ 8 + byte_of n 8) (byte_of n 0)
              (omega arith) (omega arith)
            ∙ be32_value n h))

-- `SendDword` sends the four bytes of a number, highest first.
pub send_dword_lem : (s : Saturn) (n : ℕ) → send_dword n s ≡ done tt (sent s (be32 n))
unfolding send_dword send_byte
send_dword_lem s n =
    ap (λ out. done tt (record s { fifo_out = out }))
      (rw
        (
          bit_and_mask 8 (n / 2 ^ 24),
          bit_and_mask 8 (n / 2 ^ 16),
          bit_and_mask 8 (n / 2 ^ 8),
          bit_and_mask 8 (n / 2 ^ 0),
        )
        (simp append_assoc))
