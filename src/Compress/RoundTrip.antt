-- ===== src/Compress/RoundTrip.antt =====
-- `decomp_exec` after `comp_exec`, and the size of what `comp_exec` stores, for any LZF that does
-- what its documentation says.
use ftx.Base.{ℕ, suc, ◌+◌, ◌-◌, ◌*◌, ◌/◌, ◌^◌, ◌≤◌, ◌<◌, ◌≡◌, refl, sym, ap, ap₂, ◌∙◌, arith}
use ftx.Base.{List, [], ◌∷◌, ◌++◌, length, length-tabulate, length-append, append_assoc}
use ftx.Base.{
  ◌==◌, ltb, if◌then◌else◌, bit_or, bit_and, ◌⊎◌, inl, inr, true, false, Bool, Bool-cases, ltb→lt,
}
use ftx.Compress.{comp_header_set_data, comp_data_size, bytes_at}
use ftx.Compress.{
  comp_output, decomp_header_ok, comp_exec, decomp_exec_internal, decomp_exec, decomp_getsize,
}
use ftx.Compress.{sub32}
use ftx.Compress.Header.{
  pointer, bytes_at-pointer, length-comp_header_set_data, comp_header_get-set_data,
}

abbrev tag : ℕ → ℕ → ℕ
tag flag n = bit_or (flag * 2 ^ 4) (bit_and (comp_data_size n) 7)

data_sizes : (n : ℕ) → (comp_data_size n ≡ 4) ⊎ ((comp_data_size n ≡ 2) ⊎ (comp_data_size n ≡ 1))
unfolding comp_data_size
data_sizes n = ground arith

abbrev Reads : ℕ → ℕ → Type 0
Reads flag n =
    (tag flag n / 2 ^ 4 ≡ flag)
    × ((bit_and (tag flag n) 15 ≡ comp_data_size n)
        × (decomp_header_ok flag (comp_data_size n) ≡ true))

stored_tag : (n : ℕ) → Reads 0 n
unfolding decomp_header_ok
stored_tag n = elim (data_sizes n) [
  | inl e ↦ rw e (refl, (refl, refl))
  | inr (inl e) ↦ rw e (refl, (refl, refl))
  | inr (inr e) ↦ rw e (refl, (refl, refl))
]

packed_tag : (n : ℕ) → Reads 1 n
unfolding decomp_header_ok
packed_tag n = elim (data_sizes n) [
  | inl e ↦ rw e (refl, (refl, refl))
  | inr (inl e) ↦ rw e (refl, (refl, refl))
  | inr (inr e) ↦ rw e (refl, (refl, refl))
]

if_pair :
    (b : Bool) (n : ℕ) (xs : List ℕ)
    → ◌≡◌ {A = ℕ × List ℕ} (if b then (n, xs) else (n, [])) (n, if b then xs else [])
if_pair true n xs = refl
if_pair false n xs = refl

if_same :
    (b : Bool) (n : ℕ) (xs ys : List ℕ)
    → xs ≡ ys
    → length ys ≡ n
    → ◌≡◌ {A = ℕ × List ℕ} (if b then (length xs, xs) else (n, [])) (n, if b then ys else [])
if_same true n xs ys e h = rw e (ap (λ k. (k, ys)) h)
if_same false n xs ys e h = refl

bytes_after :
    (n : ℕ) (zs rest : List ℕ)
    → bytes_at
        (pointer (tag 1 n ∷ (comp_header_set_data (comp_data_size n) n ++ (zs ++ rest))))
        (1 + comp_data_size n)
        (length zs)
      ≡ zs
bytes_after n zs rest =
    ap
      (λ k.
        bytes_at (pointer (tag 1 n ∷ (comp_header_set_data (comp_data_size n) n ++ (zs ++ rest)))) k
          (length zs))
      (omega (arith, length-comp_header_set_data n n))
    ∙ bytes_at-pointer (tag 1 n ∷ comp_header_set_data (comp_data_size n) n) zs rest

module _ (lzf_decompress : List ℕ → ℕ → List ℕ) where
  abbrev internal : (ℕ → ℕ) → ℕ → Bool → ℕ × List ℕ
  internal = decomp_exec_internal lzf_decompress

  -- A block stored as it is.
  stored :
      (xs rest : List ℕ) (outd : Bool)
      → length xs < 2 ^ 32 - 1
      → internal (pointer (tag 0 (length xs) ∷ (xs ++ rest))) (1 + length xs) outd
        ≡ (length xs, if outd then xs else [])
  unfolding decomp_exec_internal
  stored xs rest outd h =
      let t : Reads 0 (length xs) = stored_tag (length xs) in
      let nz : (1 + length xs == 0) ≡ false = ground arith in
      let sub : sub32 (1 + length xs) 1 ≡ length xs = omega arith in
      rw (nz, t.0, t.1.0, t.1.1, sub)
        (rw (bytes_at-pointer (tag 0 (length xs) ∷ []) xs rest) (if_pair outd (length xs) xs))

  -- A compressed block.
  packed :
      (n : ℕ) (zs rest : List ℕ) (outd : Bool)
      → n < 2 ^ 32
      → 1 + comp_data_size n + length zs < 2 ^ 32
      → internal
          (pointer (tag 1 n ∷ (comp_header_set_data (comp_data_size n) n ++ (zs ++ rest))))
          (1 + comp_data_size n + length zs)
          outd
        ≡ (if outd then (length (lzf_decompress zs n), lzf_decompress zs n) else (n, []))
  unfolding decomp_exec_internal
  packed n zs rest outd h k =
      let t : Reads 1 n = packed_tag n in
      let nz : (1 + comp_data_size n + length zs == 0) ≡ false = ground arith in
      let sub : sub32 (1 + comp_data_size n + length zs) (1 + comp_data_size n) ≡ length zs =
        omega arith in
      rw (nz, t.0, t.1.0, t.1.1, sub, comp_header_get-set_data n (tag 1 n) (zs ++ rest) h)
        (rw (bytes_after n zs rest) refl)

  -- A block that `comp_exec` fills from what the compressor returned, `zs`.
  filled :
      (ind : ℕ → ℕ) (n : ℕ) (zs rest : List ℕ) (outd : Bool)
      → n < 2 ^ 32 - 1
      → (0 < length zs → lzf_decompress zs n ≡ bytes_at ind 0 n)
      → (0 < length zs → 1 + comp_data_size n + length zs < n)
      → internal
          (pointer (comp_output ind n (comp_data_size n) zs ++ rest))
          (length (comp_output ind n (comp_data_size n) zs))
          outd
        ≡ (n, if outd then bytes_at ind 0 n else [])
  unfolding comp_output
  filled ind n [] rest outd h inverse fits =
      let e : length (bytes_at ind 0 n) ≡ n = length-tabulate n (λ i. ind (0 + i)) in
      let plain = bytes_at ind 0 n in
      let one_more : suc (length plain) ≡ 1 + length plain = omega arith in
      ap₂
        (λ k l.
          internal (pointer (bit_or 0 (bit_and (comp_data_size k) 7) ∷ (plain ++ rest))) l outd)
        (sym e) one_more
      ∙ stored plain rest outd (omega arith)
      ∙ ap (λ k. (k, if outd then plain else [])) e
  filled ind n (z ∷ zs) rest outd h inverse fits =
      let out = comp_header_set_data (comp_data_size n) n in
      let ne : 0 < length (z ∷ zs) = omega arith in
      ap₂ (λ l k. internal (pointer (tag 1 n ∷ l)) k outd) (append_assoc out (z ∷ zs) rest)
        (omega (arith, length-append out (z ∷ zs), length-comp_header_set_data n n))
      ∙ packed n (z ∷ zs) rest outd (omega arith) (omega (arith, fits ne))
      ∙ if_same outd n _ _ (inverse ne) (length-tabulate n (λ i. ind (0 + i)))

length-comp_output :
    (ind : ℕ → ℕ) (n : ℕ) (zs : List ℕ)
    → (0 < length zs → 1 + comp_data_size n + length zs < n)
    → length (comp_output ind n (comp_data_size n) zs) ≤ n + 1
unfolding comp_output
length-comp_output ind n [] fits = omega (arith, length-tabulate n (λ i. ind (0 + i)))
length-comp_output ind n (z ∷ zs) fits = omega (
  arith,
  length-append (comp_header_set_data (comp_data_size n) n) (z ∷ zs),
  length-comp_header_set_data n n,
  fits (omega arith),
)

room : (n : ℕ) → 2 < n → 2 + comp_data_size n ≤ n
unfolding comp_data_size
room n h = ground arith

-- LZF as liblzf documents it: the compressor stays inside of its output buffer, and what it
-- writes, the decompressor turns back, given room for it.
module _ (lzf_compress lzf_decompress : List ℕ → ℕ → List ℕ)
    (compress_fits : (xs : List ℕ) (n : ℕ) → length (lzf_compress xs n) ≤ n)
    (decompress-compress : (xs : List ℕ) (n m : ℕ)
      → 0 < length (lzf_compress xs n)
      → length xs ≤ m
      → lzf_decompress (lzf_compress xs n) m ≡ xs) where
  module _ (ind : ℕ → ℕ) (n : ℕ) (h : n < 2 ^ 32 - 1) where
    abbrev attempt : List ℕ
    attempt =
        if ltb 2 n
        then lzf_compress (bytes_at ind 0 n) (sub32 (sub32 n (1 + comp_data_size n)) 1)
        else []

    attempt_fits : 0 < length attempt → 1 + comp_data_size n + length attempt < n
    attempt_fits = elim (Bool-cases (ltb 2 n)) [
      | inl e ↦ rw e (λ p. omega (
        arith,
        room n (ltb→lt 2 n e),
        compress_fits (bytes_at ind 0 n) (sub32 (sub32 n (1 + comp_data_size n)) 1),
      ))
      | inr e ↦ rw e (λ p. absurd (omega arith))
    ]

    attempt_inverse : 0 < length attempt → lzf_decompress attempt n ≡ bytes_at ind 0 n
    attempt_inverse = elim (Bool-cases (ltb 2 n)) [
      | inl e ↦ rw e (λ p.
          decompress-compress (bytes_at ind 0 n) (sub32 (sub32 n (1 + comp_data_size n)) 1) n p
            (omega (arith, length-tabulate n (λ i. ind (0 + i)))))
      | inr e ↦ rw e (λ p. absurd (omega arith))
    ]

    -- `decomp_exec` gives back what `comp_exec` took, whatever follows the block in memory.
    pub decomp_exec-comp_exec :
        (rest : List ℕ)
        → decomp_exec lzf_decompress
            (pointer (comp_exec lzf_compress ind n ++ rest))
            (length (comp_exec lzf_compress ind n))
          ≡ (n, bytes_at ind 0 n)
    unfolding decomp_exec comp_exec
    decomp_exec-comp_exec rest =
        filled lzf_decompress ind n attempt rest true h attempt_inverse attempt_fits

    pub decomp_getsize-comp_exec :
        (rest : List ℕ)
        → decomp_getsize lzf_decompress
            (pointer (comp_exec lzf_compress ind n ++ rest))
            (length (comp_exec lzf_compress ind n))
          ≡ n
    unfolding decomp_getsize comp_exec
    decomp_getsize-comp_exec rest =
        ap (λ p. p.0)
          (filled lzf_decompress ind n attempt rest false h attempt_inverse attempt_fits)

    pub length-comp_exec : length (comp_exec lzf_compress ind n) ≤ n + 1
    unfolding comp_exec
    length-comp_exec = length-comp_output ind n attempt attempt_fits
