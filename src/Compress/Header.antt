-- ===== src/Compress/Header.antt =====
-- The header of a compressed block: what `_comp_header_set_data` stores, `_comp_header_get_data`
-- reads.
use ftx.Base.{ℕ, ◌+◌, ◌*◌, ◌^◌, ◌≤◌, ◌<◌, ◌≡◌, ap, ◌∙◌, arith}
use ftx.Base.{List, ◌∷◌, ◌++◌, length, get_or, tabulate_ext, tabulate-get_or}
use ftx.Base.{get_or-append_left, get_or-append_right, ltb, bit_or}
use ftx.Base.{◌⊎◌, inl, inr, true, false}
use ftx.Base.Bits.{bit_or_fields}
use ftx.Base.Words.{byte_of, be32_value}
use ftx.Compress.{comp_header_get_data, comp_header_set_data, comp_data_size, bytes_at}

-- Memory that holds `bytes` from the pointer on.
abbrev pub pointer : List ℕ → ℕ → ℕ
pointer bytes i = get_or bytes i 0

pub bytes_at-pointer :
    (before xs rest : List ℕ)
    → bytes_at (pointer (before ++ (xs ++ rest))) (length before) (length xs) ≡ xs
bytes_at-pointer before xs rest =
    tabulate_ext (length xs) (λ i. pointer (before ++ (xs ++ rest)) (length before + i))
      (λ i. get_or xs i 0)
      (λ i lt.
        get_or-append_right before (xs ++ rest) (length before + i) 0 (omega arith)
        ∙ ap (λ k. get_or (xs ++ rest) k 0) {y = i} (omega arith)
        ∙ get_or-append_left xs rest i 0 lt)
    ∙ tabulate-get_or xs 0

pub length-comp_header_set_data :
    (n val : ℕ) → length (comp_header_set_data (comp_data_size n) val) ≡ comp_data_size n
unfolding comp_header_set_data comp_data_size
length-comp_header_set_data n val = ground arith

or4 :
    (a b c d : ℕ)
    → b < 2 ^ 8
    → c < 2 ^ 8
    → d < 2 ^ 8
    → bit_or (bit_or (bit_or (a * 2 ^ 24) (b * 2 ^ 16)) (c * 2 ^ 8)) d
      ≡ ((a * 2 ^ 8 + b) * 2 ^ 8 + c) * 2 ^ 8 + d
or4 a b c d hb hc hd = rw (bit_or_fields 24 a (b * 2 ^ 16) (omega arith)) (
    let e : a * 2 ^ 24 + b * 2 ^ 16 ≡ (a * 2 ^ 8 + b) * 2 ^ 16 = omega arith in
    rw e (
      rw (bit_or_fields 16 (a * 2 ^ 8 + b) (c * 2 ^ 8) (omega arith)) (
        let f : (a * 2 ^ 8 + b) * 2 ^ 16 + c * 2 ^ 8 ≡ ((a * 2 ^ 8 + b) * 2 ^ 8 + c) * 2 ^ 8 =
          omega arith in
        rw f (bit_or_fields 8 ((a * 2 ^ 8 + b) * 2 ^ 8 + c) d (omega arith)))))

-- The size that the header holds is the one stored, whatever follows.
pub comp_header_get-set_data :
    (n first : ℕ) (rest : List ℕ)
    → n < 2 ^ 32
    → comp_header_get_data
        (pointer (first ∷ (comp_header_set_data (comp_data_size n) n ++ rest)))
        (comp_data_size n)
        0
      ≡ n
unfolding comp_header_get_data comp_header_set_data comp_data_size
comp_header_get-set_data n first rest h = elim sizes [
  | inl big ↦
      let e : ltb 65500 n ≡ true = ground arith in
      rw e (
        or4 (byte_of n 24) (byte_of n 16) (byte_of n 8) (byte_of n 0) (omega arith) (omega arith)
          (omega arith)
        ∙ be32_value n h)
  | inr (inl mid) ↦
      let e : ltb 65500 n ≡ false = ground arith in
      let f : ltb 240 n ≡ true = ground arith in
      rw (e, f) (bit_or_fields 8 (byte_of n 8) (byte_of n 0) (omega arith) ∙ omega arith)
  | inr (inr small) ↦
      let e : ltb 65500 n ≡ false = ground arith in
      let f : ltb 240 n ≡ false = ground arith in rw (e, f) (omega arith)
]
  where
    sizes : (65500 < n) ⊎ (((240 < n) × (n ≤ 65500)) ⊎ (n ≤ 240))
    sizes = ground arith
