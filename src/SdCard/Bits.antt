-- ===== src/SdCard/Bits.antt =====
-- What the driver samples of a card that answers bytes, and that a byte goes out highest bit first.
use ftx.Base.{ℕ, zero, suc, ◌*◌, ◌/◌, ◌%◌, ◌^◌, ◌<◌, ◌≡◌, refl, sym, ap, ◌∙◌, arith}
use ftx.Base.{true, false, List, [], ◌∷◌, ◌++◌, length, replicate, append_assoc, append-nil}
use ftx.Base.{bit_or, All, drop, ◌==◌, ==_iff, every_below, every_below_sound}
use ftx.SdCard.Spi.{Card, Signal, clocked, sample, byte_signals, receive_nibble, sdc_receivebyte}
use ftx.SdCard.Spi.{sdc_receivebyte_array, sdc_sendbyte_array}
use ftx.SdCard.Packet.{receive_bits, receive_header, wait_start_bit}

abbrev pub IsByte : ℕ → Type 0
IsByte b = b < 2 ^ 8

-- The same state, with other bits to come.
abbrev pub feed : Card → List ℕ → Card
feed c bits = record c { line = bits }

-- The bits of a byte, highest first.
abbrev pub bits_of : ℕ → List ℕ
bits_of b =
    (b / 2 ^ 7 % 2)
    ∷ (b / 2 ^ 6 % 2)
    ∷ (b / 2 ^ 5 % 2)
    ∷ (b / 2 ^ 4 % 2)
    ∷ (b / 2 ^ 3 % 2)
    ∷ (b / 2 ^ 2 % 2)
    ∷ (b / 2 % 2)
    ∷ (b % 2)
    ∷ []

abbrev pub stream : List ℕ → List ℕ
stream [] = []
stream (b ∷ bs) = bits_of b ++ stream bs

byte_value : ℕ → ℕ
byte_value b =
    let hi =
      bit_or
        (bit_or (bit_or (b / 2 ^ 7 % 2 * 2 ^ 3) (b / 2 ^ 6 % 2 * 2 ^ 2)) (b / 2 ^ 5 % 2 * 2 ^ 1))
        (b / 2 ^ 4 % 2) in
    let lo =
      bit_or (bit_or (bit_or (b / 2 ^ 3 % 2 * 2 ^ 3) (b / 2 ^ 2 % 2 * 2 ^ 2)) (b / 2 % 2 * 2 ^ 1))
        (b % 2) in
    bit_or lo (hi * 2 ^ 4 % 2 ^ 8)

byte_table : every_below (λ b. byte_value b == b) 256 ≡ true
unfolding every_below byte_value
byte_table = refl

byte_value-eq : (b : ℕ) → IsByte b → byte_value b ≡ b
byte_value-eq b h = (==_iff _ _).0 (every_below_sound _ 256 b byte_table h)

-- Eight clocks of a card that answers a byte give that byte.
pub sdc_receivebyte_lem :
    (c : Card) (b : ℕ) (rest : List ℕ)
    → IsByte b
    → sdc_receivebyte (feed c (bits_of b ++ rest)) ≡ (b, feed c rest)
unfolding sdc_receivebyte receive_nibble sample byte_value
sdc_receivebyte_lem c b rest h = ap (λ v. (v, feed c rest)) (byte_value-eq b h)

pub sdc_receivebyte_array_lem :
    (c : Card) (bytes rest : List ℕ)
    → All IsByte bytes
    → sdc_receivebyte_array (length bytes) (feed c (stream bytes ++ rest)) ≡ (bytes, feed c rest)
unfolding sdc_receivebyte_array
sdc_receivebyte_array_lem c [] rest h = refl
sdc_receivebyte_array_lem c (b ∷ bs) rest h =
    rw (sdc_receivebyte_lem c b (stream bs ++ rest) h.0)
      (rw (sdc_receivebyte_array_lem c bs rest h.1) refl)

-- The value of the bits sampled behind those of `tmp`.
abbrev shifted : ℕ → List ℕ → ℕ
shifted tmp [] = tmp
shifted tmp (b ∷ bs) = shifted (bit_or (tmp * 2 % 2 ^ 8) b) bs

receive_bits_lem :
    (c : Card) (tmp : ℕ) (bits rest : List ℕ)
    → receive_bits (length bits) tmp (feed c (bits ++ rest)) ≡ (shifted tmp bits, feed c rest)
unfolding receive_bits sample
receive_bits_lem c tmp [] rest = refl
receive_bits_lem c tmp (b ∷ bs) rest = receive_bits_lem c (bit_or (tmp * 2 % 2 ^ 8) b) bs rest

shifted_table : every_below (λ b. shifted 0 (bits_of b) == b) 256 ≡ true
unfolding every_below
shifted_table = refl

shifted_table_first : every_below (λ b. shifted 0 (drop 1 (bits_of b)) == b) 128 ≡ true
unfolding every_below
shifted_table_first = refl

response_rest :
    (c : Card) (bytes rest : List ℕ)
    → All IsByte bytes
    → receive_header (length bytes) 8 (feed c (stream bytes ++ rest)) ≡ (bytes, feed c rest)
unfolding receive_header
response_rest c [] rest h = refl
response_rest c (b ∷ bs) rest h = rw (receive_bits_lem c 0 (bits_of b) (stream bs ++ rest)) (
    rw ((==_iff _ _).0 (every_below_sound _ 256 b shifted_table h.0))
      (rw (response_rest c bs rest h.1) refl))

-- A response: its first bit is the start bit, and has been sampled.
pub receive_header_lem :
    (c : Card) (r : ℕ) (bytes rest : List ℕ)
    → r < 2 ^ 7
    → All IsByte bytes
    → receive_header (suc (length bytes)) 7 (feed c (drop 1 (bits_of r) ++ (stream bytes ++ rest)))
      ≡ (r ∷ bytes, feed c rest)
unfolding receive_header
receive_header_lem c r bytes rest h k =
    rw (receive_bits_lem c 0 (drop 1 (bits_of r)) (stream bytes ++ rest)) (
      rw ((==_iff _ _).0 (every_below_sound _ 128 r shifted_table_first h))
        (rw (response_rest c bytes rest k) refl))

-- The start bit is found if it comes within the polls.
pub wait_start_bit_lem :
    (c : Card) (waits polls : ℕ) (rest : List ℕ)
    → waits < polls
    → wait_start_bit polls (feed c (replicate waits 1 ++ (0 ∷ rest))) ≡ (true, feed c rest)
unfolding wait_start_bit sample
wait_start_bit_lem c waits zero rest h = absurd (omega arith)
wait_start_bit_lem c zero (suc polls) rest h = refl
wait_start_bit_lem c (suc waits) (suc polls) rest h =
    wait_start_bit_lem c waits polls rest (omega arith)

-- A card that answers nothing is given up.
pub wait_start_bit_silent :
    (c : Card) (polls : ℕ) → wait_start_bit polls (feed c []) ≡ (false, feed c [])
unfolding wait_start_bit sample
wait_start_bit_silent c zero = refl
wait_start_bit_silent c (suc polls) = wait_start_bit_silent c polls

abbrev pub signals : List ℕ → List Signal
signals [] = []
signals (b ∷ bs) = clocked b ∷ signals bs

byte_signals-bits : (b : ℕ) → byte_signals b ≡ signals (bits_of b)
byte_signals-bits b =
    let e3 : b / 2 ^ 4 / 2 ^ 3 % 2 ≡ b / 2 ^ 7 % 2 = omega arith in
    let e2 : b / 2 ^ 4 / 2 ^ 2 % 2 ≡ b / 2 ^ 6 % 2 = omega arith in
    let e1 : b / 2 ^ 4 / 2 ^ 1 % 2 ≡ b / 2 ^ 5 % 2 = omega arith in
    let e0 : b / 2 ^ 4 / 2 ^ 0 % 2 ≡ b / 2 ^ 4 % 2 = omega arith in
    let f1 : b / 2 ^ 1 % 2 ≡ b / 2 % 2 = omega arith in
    let f0 : b / 2 ^ 0 % 2 ≡ b % 2 = omega arith in rw (e3, e2, e1, e0, f1, f0) refl

-- The bytes go out one after the other, highest bit first.
pub sdc_sendbyte_array_lem :
    (c : Card) (bytes : List ℕ)
    → sdc_sendbyte_array bytes c ≡ (tt, record c { wire = c.wire ++ signals (stream bytes) })
unfolding sdc_sendbyte_array
sdc_sendbyte_array_lem c [] = ap (λ w. (tt, record c { wire = w })) (sym (append-nil c.wire))
sdc_sendbyte_array_lem c (b ∷ bs) =
    sdc_sendbyte_array_lem (record c { wire = c.wire ++ byte_signals b }) bs
    ∙ ap (λ w. (tt, record c { wire = w }))
        (append_assoc c.wire (byte_signals b) (signals (stream bs))
          ∙ ap (λ l. c.wire ++ (l ++ signals (stream bs))) (byte_signals-bits b))
