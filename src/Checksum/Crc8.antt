-- ===== src/Checksum/Crc8.antt =====
-- The table-driven 8-bit checksum is the polynomial one, and what it detects.
use ftx.Base.{
  ℕ, zero, suc, ◌+◌, ◌*◌, ◌^◌, ◌<◌, ◌≡◌, ◌≢◌, refl, sym, ap, ◌∙◌, ap₂, arith, ltb, ltb→lt,
  if◌then◌else◌,
}
use ftx.Base.{
  true, List, [], ◌∷◌, ◌++◌, every_below, every_below_sound, ◌==◌, ==_iff, All, All-append, ◌↔◌,
  get_or, bit_and, bit_xor,
}
use ftx.Base.Bits.{bit_xor-lt, bit_xor_fields, bit_and_mask, bit_xor-zero}
use native.Mathlib.Nat.{mod-eq_of_lt}
use ftx.Base.Bits.{zero-bit_xor, bit_xor_self, bit_xor_comm, bit_xor_inj, bit_xor_inj_left}
use ftx.Checksum.Tables.{crc_usbdc_table}
use ftx.Checksum.Spec.{shift8, times, crc8}
use ftx.Checksum.{crc_usbdc_step, crc_usbdc_loop, crc_usbdc_init, crc_usbdc_update}

abbrev pub IsByte : ℕ → Type 0
IsByte b = b < 256

table : ℕ → ℕ
table i = get_or crc_usbdc_table i 0

table_check : every_below (λ i. table i == times 8 shift8 i) 256 ≡ true
unfolding every_below table crc_usbdc_table times shift8
table_check = refl

-- Each entry is the eight shifts of its index.
table-shift8 : (i : ℕ) → i < 256 → table i ≡ times 8 shift8 i
table-shift8 i h = (==_iff _ _).0 (every_below_sound _ 256 i table_check h)

range_check : every_below (λ i. ltb (table i) 256) 256 ≡ true
unfolding every_below table crc_usbdc_table
range_check = refl

table-lt : (i : ℕ) → i < 256 → table i < 256
table-lt i h = ltb→lt _ _ (every_below_sound _ 256 i range_check h)

-- The position of a value in the table, from `n` entries down.
position : ℕ → ℕ → ℕ
position zero v = 0
position (suc n) v = if table n == v then n else position n v

position_check : every_below (λ i. position 256 (table i) == i) 256 ≡ true
unfolding every_below position table crc_usbdc_table
position_check = refl

-- The table is a permutation of the bytes.
table-inj : (i j : ℕ) → i < 256 → j < 256 → table i ≡ table j → i ≡ j
table-inj i j hi hj e =
    sym ((==_iff _ _).0 (every_below_sound _ 256 i position_check hi))
    ∙ ap (position 256) e
    ∙ (==_iff _ _).0 (every_below_sound _ 256 j position_check hj)

byte_xor : (a b : ℕ) → a < 256 → b < 256 → bit_xor a b < 256
byte_xor a b ha hb = bit_xor-lt 8 a b ha hb

crc_usbdc_step-table :
    (crc byte : ℕ) → crc < 256 → byte < 256 → crc_usbdc_step crc byte ≡ table (bit_xor crc byte)
unfolding crc_usbdc_step table
crc_usbdc_step-table crc byte hc hb =
    let index : bit_and (bit_xor crc byte) 0xff ≡ bit_xor crc byte =
      bit_and_mask 8 (bit_xor crc byte) ∙ mod-eq_of_lt (byte_xor crc byte hc hb) in
    let entry = get_or crc_usbdc_table (bit_xor crc byte) 0 in
    let small : entry < 256 =
      unfold table in table-lt (bit_xor crc byte) (byte_xor crc byte hc hb) in
    rw index (bit_and_mask 8 (bit_xor entry (crc * 2 ^ 8)) ∙ omega (arith, shifted entry crc small))
  where
    shifted : (t c : ℕ) → t < 256 → bit_xor t (c * 2 ^ 8) ≡ c * 256 + t
    shifted t c h =
        bit_xor_comm t (c * 2 ^ 8)
        ∙ ap₂ bit_xor (omega arith) (omega arith)
        ∙ bit_xor_fields 8 c 0 0 t (omega arith) h
        ∙ ap₂ (λ x y. x * 2 ^ 8 + y) (bit_xor-zero c) (zero-bit_xor t)

step-lt : (crc byte : ℕ) → crc < 256 → byte < 256 → crc_usbdc_step crc byte < 256
step-lt crc byte hc hb =
    rw (crc_usbdc_step-table crc byte hc hb) (table-lt _ (byte_xor crc byte hc hb))

loop-lt : (bytes : List ℕ) (crc : ℕ) → crc < 256 → All IsByte bytes → crc_usbdc_loop crc bytes < 256
unfolding crc_usbdc_loop
loop-lt [] crc hc hb = hc
loop-lt (b ∷ bs) crc hc (hb, hbs) = loop-lt bs (crc_usbdc_step crc b) (step-lt crc b hc hb) hbs

loop-crc8 :
    (bytes : List ℕ) (crc : ℕ)
    → crc < 256
    → All IsByte bytes
    → crc_usbdc_loop crc bytes ≡ crc8 crc bytes
unfolding crc_usbdc_loop crc8
loop-crc8 [] crc hc hb = refl
loop-crc8 (b ∷ bs) crc hc (hb, hbs) =
    loop-crc8 bs (crc_usbdc_step crc b) (step-lt crc b hc hb) hbs
    ∙ ap (λ c. crc8 c bs)
        (crc_usbdc_step-table crc b hc hb ∙ table-shift8 (bit_xor crc b) (byte_xor crc b hc hb))

update-loop :
    (bytes : List ℕ) (crc : ℕ)
    → crc < 256
    → All IsByte bytes
    → crc_usbdc_update crc bytes ≡ crc_usbdc_loop crc bytes
unfolding crc_usbdc_update
update-loop bytes crc hc hb =
    bit_and_mask 8 (crc_usbdc_loop crc bytes) ∙ mod-eq_of_lt (loop-lt bytes crc hc hb)

-- On bytes, the table-driven `crc_usbdc_update` is the division by the polynomial 0x07.
pub crc_usbdc_update-crc8 :
    (crc : ℕ) (bytes : List ℕ)
    → crc < 256
    → All IsByte bytes
    → crc_usbdc_update crc bytes ≡ crc8 crc bytes
crc_usbdc_update-crc8 crc bytes hc hb = update-loop bytes crc hc hb ∙ loop-crc8 bytes crc hc hb

pub crc_usbdc_update-lt :
    (crc : ℕ) (bytes : List ℕ) → crc < 256 → All IsByte bytes → crc_usbdc_update crc bytes < 256
crc_usbdc_update-lt crc bytes hc hb = rw (update-loop bytes crc hc hb) (loop-lt bytes crc hc hb)

loop-append :
    (xs ys : List ℕ) (crc : ℕ)
    → crc_usbdc_loop crc (xs ++ ys) ≡ crc_usbdc_loop (crc_usbdc_loop crc xs) ys
unfolding crc_usbdc_loop
loop-append [] ys crc = refl
loop-append (x ∷ xs) ys crc = loop-append xs ys (crc_usbdc_step crc x)

-- A checksum may be taken piece by piece, as the streaming callers do.
pub crc_usbdc_update-append :
    (crc : ℕ) (xs ys : List ℕ)
    → crc < 256
    → All IsByte xs
    → All IsByte ys
    → crc_usbdc_update crc (xs ++ ys) ≡ crc_usbdc_update (crc_usbdc_update crc xs) ys
crc_usbdc_update-append crc xs ys hc hx hy =
    update-loop (xs ++ ys) crc hc (All-append IsByte xs ys hx hy)
    ∙ loop-append xs ys crc
    ∙ sym (update-loop ys (crc_usbdc_loop crc xs) (loop-lt xs crc hc hx) hy)
    ∙ ap (λ c. crc_usbdc_update c ys) (sym (update-loop xs crc hc hx))

step-inj_crc :
    (a b byte : ℕ)
    → a < 256
    → b < 256
    → byte < 256
    → crc_usbdc_step a byte ≡ crc_usbdc_step b byte
    → a ≡ b
step-inj_crc a b byte ha hb h e = bit_xor_inj a b byte (
    table-inj _ _ (byte_xor a byte ha h) (byte_xor b byte hb h)
      (sym (crc_usbdc_step-table a byte ha h) ∙ e ∙ crc_usbdc_step-table b byte hb h))

step-inj_byte :
    (crc x y : ℕ)
    → crc < 256
    → x < 256
    → y < 256
    → crc_usbdc_step crc x ≡ crc_usbdc_step crc y
    → x ≡ y
step-inj_byte crc x y hc hx hy e = bit_xor_inj_left x y crc (
    table-inj _ _ (byte_xor crc x hc hx) (byte_xor crc y hc hy)
      (sym (crc_usbdc_step-table crc x hc hx) ∙ e ∙ crc_usbdc_step-table crc y hc hy))

loop-inj :
    (bytes : List ℕ) (a b : ℕ)
    → a < 256
    → b < 256
    → All IsByte bytes
    → crc_usbdc_loop a bytes ≡ crc_usbdc_loop b bytes
    → a ≡ b
unfolding crc_usbdc_loop
loop-inj [] a b ha hb h e = e
loop-inj (x ∷ xs) a b ha hb (hx, hxs) e = step-inj_crc a b x ha hb hx (
    loop-inj xs (crc_usbdc_step a x) (crc_usbdc_step b x) (step-lt a x ha hx) (step-lt b x hb hx)
      hxs e)

-- Two messages that differ in exactly one byte never have the same 8-bit checksum.
pub crc_usbdc_update_detects :
    (front back : List ℕ) (x y : ℕ)
    → All IsByte front
    → All IsByte back
    → x < 256
    → y < 256
    → x ≢ y
    → crc_usbdc_update crc_usbdc_init (front ++ (x ∷ back))
      ≢ crc_usbdc_update crc_usbdc_init (front ++ (y ∷ back))
unfolding crc_usbdc_init
crc_usbdc_update_detects front back x y hf hb hx hy ne e = ne (
    step-inj_byte c x y hc hx hy (
      loop-inj back _ _ (step-lt c x hc hx) (step-lt c y hc hy) hb
        (sym (split x hx) ∙ e ∙ split y hy)))
  where
    c : ℕ
    c = crc_usbdc_loop 0 front

    hc : c < 256
    hc = loop-lt front 0 (omega arith) hf

    split :
        (z : ℕ)
        → z < 256
        → crc_usbdc_update 0 (front ++ (z ∷ back)) ≡ crc_usbdc_loop (crc_usbdc_step c z) back
    split z hz =
        update-loop (front ++ (z ∷ back)) 0 (omega arith)
          (All-append IsByte front (z ∷ back) hf (hz, hb))
        ∙ loop-append front (z ∷ back) 0
        ∙ unfold crc_usbdc_loop in refl

-- A message followed by its own checksum has checksum 0, and by any other byte has not.
pub crc_usbdc_update_residue :
    (bytes : List ℕ) (sum : ℕ)
    → All IsByte bytes
    → sum < 256
    → (crc_usbdc_update crc_usbdc_init (bytes ++ (sum ∷ [])) ≡ 0)
      ↔ (sum ≡ crc_usbdc_update crc_usbdc_init bytes)
unfolding crc_usbdc_init
crc_usbdc_update_residue bytes sum hb hs = (forth, back)
  where
    c : ℕ
    c = crc_usbdc_loop 0 bytes

    hc : c < 256
    hc = loop-lt bytes 0 (omega arith) hb

    whole : crc_usbdc_update 0 (bytes ++ (sum ∷ [])) ≡ crc_usbdc_step c sum
    whole =
        update-loop (bytes ++ (sum ∷ [])) 0 (omega arith)
          (All-append IsByte bytes (sum ∷ []) hb (hs, tt))
        ∙ loop-append bytes (sum ∷ []) 0
        ∙ unfold crc_usbdc_loop in refl

    c_step : crc_usbdc_step c c ≡ 0
    c_step =
        crc_usbdc_step-table c c hc hc
        ∙ ap table (bit_xor_self c)
        ∙ unfold table crc_usbdc_table in refl

    forth : crc_usbdc_update 0 (bytes ++ (sum ∷ [])) ≡ 0 → sum ≡ crc_usbdc_update 0 bytes
    forth e =
        step-inj_byte c sum c hc hs hc (sym whole ∙ e ∙ sym c_step)
        ∙ sym (update-loop bytes 0 (omega arith) hb)

    back : sum ≡ crc_usbdc_update 0 bytes → crc_usbdc_update 0 (bytes ++ (sum ∷ [])) ≡ 0
    back e = whole ∙ ap (crc_usbdc_step c) (e ∙ update-loop bytes 0 (omega arith) hb) ∙ c_step

pub crc_usbdc_update-nil : (crc : ℕ) → crc < 256 → crc_usbdc_update crc [] ≡ crc
crc_usbdc_update-nil crc h = update-loop [] crc h tt ∙ unfold crc_usbdc_loop in refl
