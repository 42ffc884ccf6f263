-- ===== src/CircBuffer/Drain.antt =====
-- `scd_cbread` takes all of the ring of `scd_data_t`.
use ftx.Base.{ℕ, zero, suc, ◌+◌, ◌-◌, ◌≤◌, ◌<◌, ◌≡◌, refl, sym, ap, ap₂, ◌∙◌, arith}
use ftx.Base.{List, [], ◌∷◌, ◌++◌, length, get_or, take, drop, tabulate}
use ftx.Base.{length-drop, tabulate_ext}
use ftx.Base.{tabulate-add}
use ftx.Base.{◌⊎◌, inl, inr, true, false, ◌==◌, ltb}
use ftx.CircBuffer.{ScdData, rbuffer_size, sub32}
use ftx.CircBuffer.{scd_cbread}
use ftx.CircBuffer.Ring.{IsRing, slot, contents, get_or-drop}

take-tabulate : (n : ℕ) (xs : List ℕ) → n ≤ length xs → take n xs ≡ tabulate n (λ i. get_or xs i 0)
take-tabulate zero xs h = refl
take-tabulate (suc n) [] h = absurd (omega arith)
take-tabulate (suc n) (x ∷ xs) h = ap (λ l. x ∷ l) (take-tabulate n xs (omega arith))

module _ (d : ScdData) (ring : IsRing d) where
  abbrev pub emptied : ScdData
  emptied = record d { readptr = d.writeptr }

  stretch :
      (off n : ℕ) (f : ℕ → ℕ)
      → off + n ≤ rbuffer_size
      → ((i : ℕ) → i < n → get_or d.rbuffer (off + i) 0 ≡ f i)
      → take n (drop off d.rbuffer) ≡ tabulate n f
  stretch off n f h e =
      take-tabulate n (drop off d.rbuffer) (omega (arith, length-drop off d.rbuffer, ring.room))
      ∙ tabulate_ext n (λ i. get_or (drop off d.rbuffer) i 0) f
          (λ i lt. get_or-drop off d.rbuffer i ∙ e i lt)

  up_stretch :
      d.readptr ≤ d.writeptr → take (d.writeptr - d.readptr) (drop d.readptr d.rbuffer) ≡ contents d
  unfolding contents
  up_stretch h =
      stretch d.readptr (d.writeptr - d.readptr) (slot d) (omega (arith, ring.write_inside))
        (λ i lt. ap (λ k. get_or d.rbuffer k 0) (omega (arith, ring.write_inside)))
      ∙ ap (λ n. tabulate n (slot d)) (omega (arith, ring.write_inside))

  down_stretch :
      d.writeptr < d.readptr
      → take (rbuffer_size - d.readptr) (drop d.readptr d.rbuffer) ++ take d.writeptr d.rbuffer
        ≡ contents d
  unfolding contents
  down_stretch h =
      ap₂ ◌++◌
        (stretch d.readptr (rbuffer_size - d.readptr) (slot d) (omega (arith, ring.read_inside))
          (λ i lt. ap (λ k. get_or d.rbuffer k 0) (omega (arith, ring.read_inside))))
        (stretch 0 d.writeptr (λ i. slot d (rbuffer_size - d.readptr + i))
          (omega (arith, ring.write_inside))
          (λ i lt. ap (λ k. get_or d.rbuffer k 0) (omega (arith, ring.read_inside))))
      ∙ sym (tabulate-add (rbuffer_size - d.readptr) d.writeptr (slot d))
      ∙ ap (λ n. tabulate n (slot d)) (omega (arith, ring.read_inside))

  contents_empty : d.writeptr ≡ d.readptr → contents d ≡ []
  unfolding contents
  contents_empty h = ap (λ n. tabulate n (slot d)) {y = 0} (omega (arith, ring.write_inside))

  -- Reading takes the whole queue and leaves an empty one.
  pub scd_cbread-contents : scd_cbread d ≡ (contents d, emptied)
  unfolding scd_cbread
  scd_cbread-contents = elim three [
    | inl h ↦
        let e : (d.writeptr == d.readptr) ≡ true = ground arith in
        rw e (ap₂ (λ l r. (l, record d { readptr = r })) (sym (contents_empty h)) (sym h))
    | inr (inl h) ↦
        let e : (d.writeptr == d.readptr) ≡ false = ground arith in
        let f : ltb d.readptr d.writeptr ≡ true = ground arith in
        let g : sub32 d.writeptr d.readptr ≡ d.writeptr - d.readptr =
          omega (arith, ring.write_inside) in
        rw (e, f, g) (ap (λ l. (l, emptied)) (up_stretch (omega arith)))
    | inr (inr h) ↦
        let e : (d.writeptr == d.readptr) ≡ false = ground arith in
        let f : ltb d.readptr d.writeptr ≡ false = ground arith in
        let g : sub32 d.buffer_size d.readptr ≡ rbuffer_size - d.readptr =
          omega (arith, ring.size, ring.read_inside) in
        rw (e, f, g) (ap (λ l. (l, emptied)) (down_stretch h))
  ]
    where
      three : (d.writeptr ≡ d.readptr) ⊎ ((d.readptr < d.writeptr) ⊎ (d.writeptr < d.readptr))
      three = ground arith

  pub emptied-IsRing : IsRing emptied
  emptied-IsRing = record {
    size = ring.size;
    room = ring.room;
    read_inside = ring.write_inside;
    write_inside = ring.write_inside;
  }

  pub contents-emptied : contents emptied ≡ []
  unfolding contents
  contents-emptied = ap (λ n. tabulate n (slot emptied)) {y = 0} (omega (arith, ring.write_inside))
