-- ===== src/CircBuffer/Ring.antt =====
-- What the writes of `scd_cbwrite` leave in the memory of the ring.
use ftx.Base.{ℕ, zero, suc, ◌+◌, ◌-◌, ◌%◌, ◌≤◌, ◌<◌, ◌≡◌, refl, ap, ap₂, ◌∙◌, arith}
use ftx.Base.{List, [], ◌∷◌, ◌++◌, length, get_or, take, drop, tabulate, length-append}
use ftx.Base.{length-take, length-drop, get_or-append_left, get_or-append_right}
use ftx.Base.{take_all}
use ftx.Base.{◌⊎◌, inl, inr, true, false, leb}
use ftx.CircBuffer.{ScdData, rbuffer_size, memcpy, sub32}
use ftx.CircBuffer.{cb_store}

-- The pointers lie in the ring, which has the size that `scd_cbinit` gives it.
pub record IsRing (d : ScdData) : Type 0 where
  pub size : d.buffer_size ≡ rbuffer_size
  pub room : length d.rbuffer ≡ rbuffer_size
  pub read_inside : d.readptr < rbuffer_size
  pub write_inside : d.writeptr < rbuffer_size

-- Bytes written and not yet read, oldest first.
abbrev pub used : ScdData → ℕ
used d = (d.writeptr + rbuffer_size - d.readptr) % rbuffer_size

abbrev pub slot : ScdData → ℕ → ℕ
slot d i = get_or d.rbuffer ((d.readptr + i) % rbuffer_size) 0

unfoldable pub contents : ScdData → List ℕ
contents d = tabulate (used d) (slot d)

pub get_or-take : (n : ℕ) (xs : List ℕ) (i : ℕ) → i < n → get_or (take n xs) i 0 ≡ get_or xs i 0
get_or-take zero xs i h = absurd (omega arith)
get_or-take (suc n) [] i h = refl
get_or-take (suc n) (x ∷ xs) zero h = refl
get_or-take (suc n) (x ∷ xs) (suc i) h = get_or-take n xs i (omega arith)

pub get_or-drop : (n : ℕ) (xs : List ℕ) (i : ℕ) → get_or (drop n xs) i 0 ≡ get_or xs (n + i) 0
get_or-drop zero xs i = ap (λ k. get_or xs k 0) (omega arith)
get_or-drop (suc n) [] i = refl
get_or-drop (suc n) (x ∷ xs) i =
    let e : suc n + i ≡ suc (n + i) = omega arith in rw e (get_or-drop n xs i)

module _ (off : ℕ) (input buf : List ℕ) (fits : off + length input ≤ length buf) where
  head_length : length (take off buf) ≡ off
  head_length = omega (arith, length-take off buf)

  length-memcpy : length (memcpy off input buf) ≡ length buf
  length-memcpy = omega (
    arith,
    length-append (take off buf) (input ++ drop (off + length input) buf),
    length-append input (drop (off + length input) buf),
    length-drop (off + length input) buf,
    head_length,
  )

  get_or-memcpy_before : (i : ℕ) → i < off → get_or (memcpy off input buf) i 0 ≡ get_or buf i 0
  get_or-memcpy_before i h =
      get_or-append_left (take off buf) (input ++ drop (off + length input) buf) i 0
        (omega (arith, head_length))
      ∙ get_or-take off buf i h

  get_or-memcpy_at :
      (i : ℕ) → i < length input → get_or (memcpy off input buf) (off + i) 0 ≡ get_or input i 0
  get_or-memcpy_at i h =
      get_or-append_right (take off buf) (input ++ drop (off + length input) buf) (off + i) 0
        (omega (arith, head_length))
      ∙ ap (λ k. get_or (input ++ drop (off + length input) buf) k 0) (omega (arith, head_length))
      ∙ get_or-append_left input (drop (off + length input) buf) i 0 h

  get_or-memcpy_after :
      (i : ℕ) → off + length input ≤ i → get_or (memcpy off input buf) i 0 ≡ get_or buf i 0
  get_or-memcpy_after i h =
      get_or-append_right (take off buf) (input ++ drop (off + length input) buf) i 0
        (omega (arith, head_length))
      ∙ get_or-append_right input (drop (off + length input) buf) (i - length (take off buf)) 0
          (omega (arith, head_length))
      ∙ get_or-drop (off + length input) buf (i - length (take off buf) - length input)
      ∙ ap (λ k. get_or buf k 0) (omega (arith, head_length))

-- What `cb_store` leaves in the ring, read from the write pointer on.
module _ (d : ScdData) (ring : IsRing d) (input : List ℕ) (fits : length input < rbuffer_size) where
  abbrev end_space : ℕ
  end_space = rbuffer_size - d.writeptr

  abbrev first_piece : List ℕ
  first_piece = memcpy d.writeptr (take end_space input) d.rbuffer

  pub cb_store_short :
      length input ≤ end_space → cb_store d input (length input) ≡ memcpy d.writeptr input d.rbuffer
  unfolding cb_store
  cb_store_short h =
      let e : leb (length input) (sub32 d.buffer_size d.writeptr) ≡ true =
        ground (arith, ring.size, ring.write_inside) in
      rw (e, take_all (length input) input (omega arith)) refl

  cb_store_long :
      end_space < length input
      → cb_store d input (length input) ≡ memcpy 0 (drop end_space input) first_piece
  unfolding cb_store
  cb_store_long h =
      let e : leb (length input) (sub32 d.buffer_size d.writeptr) ≡ false =
        ground (arith, ring.size, ring.write_inside) in
      let f : sub32 d.buffer_size d.writeptr ≡ end_space =
        omega (arith, ring.size, ring.write_inside) in
      let g : sub32 (length input) end_space ≡ length input - end_space = omega arith in
      rw (e, f, g)
        (ap (λ l. memcpy 0 l first_piece)
          (take_all (length input - end_space) (drop end_space input)
            (omega (arith, length-drop end_space input))))

  first_fits : d.writeptr + length (take end_space input) ≤ length d.rbuffer
  first_fits = omega (arith, length-take end_space input, ring.room, ring.write_inside)

  rest_fits : 0 + length (drop end_space input) ≤ length first_piece
  rest_fits = omega (
    arith,
    length-drop end_space input,
    length-memcpy d.writeptr (take end_space input) d.rbuffer first_fits,
    ring.room,
  )

  short_or_long : (length input ≤ end_space) ⊎ (end_space < length input)
  short_or_long = ground arith

  early_or_late : (i : ℕ) → (i < end_space) ⊎ (end_space ≤ i)
  early_or_late i = ground arith

  pub length-stored : length (cb_store d input (length input)) ≡ rbuffer_size
  length-stored = elim short_or_long [
    | inl h ↦
        ap length (cb_store_short h)
        ∙ length-memcpy d.writeptr input d.rbuffer (omega (arith, ring.room, ring.write_inside))
        ∙ ring.room
    | inr h ↦
        ap length (cb_store_long h)
        ∙ length-memcpy 0 (drop end_space input) first_piece rest_fits
        ∙ length-memcpy d.writeptr (take end_space input) d.rbuffer first_fits
        ∙ ring.room
  ]

  -- A byte of the input lies where its turn comes round the ring.
  pub get_or-stored_new :
      (i : ℕ)
      → i < length input
      → get_or (cb_store d input (length input)) ((d.writeptr + i) % rbuffer_size) 0
        ≡ get_or input i 0
  get_or-stored_new i lt = elim short_or_long [
    | inl h ↦
        ap₂ (λ l k. get_or l k 0) (cb_store_short h) (omega (arith, ring.write_inside))
        ∙ get_or-memcpy_at d.writeptr input d.rbuffer (omega (arith, ring.room, ring.write_inside))
            i lt
    | inr h ↦
        ap (λ l. get_or l ((d.writeptr + i) % rbuffer_size) 0) (cb_store_long h)
        ∙ elim (early_or_late i) [
          | inl early ↦
              get_or-memcpy_after 0 (drop end_space input) first_piece rest_fits
                ((d.writeptr + i) % rbuffer_size)
                (omega (arith, length-drop end_space input, ring.write_inside))
              ∙ ap (λ k. get_or first_piece k 0) (omega (arith, ring.write_inside))
              ∙ get_or-memcpy_at d.writeptr (take end_space input) d.rbuffer first_fits i
                  (omega (arith, length-take end_space input))
              ∙ get_or-take end_space input i early
          | inr late ↦
              ap (λ k. get_or (memcpy 0 (drop end_space input) first_piece) k 0)
                {x = (d.writeptr + i) % rbuffer_size} {y = 0 + (i - end_space)}
                (omega (arith, ring.write_inside))
              ∙ get_or-memcpy_at 0 (drop end_space input) first_piece rest_fits (i - end_space)
                  (omega (arith, length-drop end_space input))
              ∙ get_or-drop end_space input (i - end_space)
              ∙ ap (λ k. get_or input k 0) (omega arith)
        ]
  ]

  -- The rest of the ring is as it was.
  pub get_or-stored_old :
      (i : ℕ)
      → length input ≤ i
      → i < rbuffer_size
      → get_or (cb_store d input (length input)) ((d.writeptr + i) % rbuffer_size) 0
        ≡ get_or d.rbuffer ((d.writeptr + i) % rbuffer_size) 0
  get_or-stored_old i past lt = elim short_or_long [
    | inl h ↦
        ap (λ l. get_or l ((d.writeptr + i) % rbuffer_size) 0) (cb_store_short h)
        ∙ elim (early_or_late i) [
          | inl early ↦
              get_or-memcpy_after d.writeptr input d.rbuffer
                (omega (arith, ring.room, ring.write_inside)) _ (omega (arith, ring.write_inside))
          | inr late ↦
              get_or-memcpy_before d.writeptr input d.rbuffer
                (omega (arith, ring.room, ring.write_inside)) _ (omega (arith, ring.write_inside))
        ]
    | inr h ↦
        ap (λ l. get_or l ((d.writeptr + i) % rbuffer_size) 0) (cb_store_long h)
        ∙ get_or-memcpy_after 0 (drop end_space input) first_piece rest_fits _
            (omega (arith, length-drop end_space input, ring.write_inside))
        ∙ get_or-memcpy_before d.writeptr (take end_space input) d.rbuffer first_fits _
            (omega (arith, ring.write_inside))
  ]
