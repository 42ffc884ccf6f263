-- ===== src/CircBuffer/Queue.antt =====
-- The ring of `scd_data_t` as a bounded queue of bytes.
use ftx.Base.{ℕ, ◌+◌, ◌-◌, ◌%◌, ◌^◌, ◌≤◌, ◌<◌, ◌≡◌, refl, sym, ap, ap₂, ◌∙◌, arith}
use ftx.Base.{List, [], ◌++◌, length, get_or, tabulate}
use ftx.Base.{tabulate_ext}
use ftx.Base.{tabulate-add, tabulate-get_or, length-tabulate, take_all}
use ftx.Base.{◌⊎◌, inl, inr, Bool, true, false, not, ltb, leb, if◌then◌else◌}
use ftx.CircBuffer.{ScdData, rbuffer_size, memcpy, u32, sub32}
use ftx.CircBuffer.{scd_cbinit, cb_advance, cb_store, scd_cbwrite}
use ftx.CircBuffer.Ring.{IsRing, used, slot, contents, cb_store_short}
use ftx.CircBuffer.Ring.{length-stored, get_or-stored_new, get_or-stored_old}

if-not : {A : Type 0} (b : Bool) (x y : A) → (if not b then x else y) ≡ (if b then y else x)
if-not true x y = refl
if-not false x y = refl

if_cong :
    {A : Type 0} {x x' : A} (b : Bool) (y : A)
    → (b ≡ true → x ≡ x')
    → (if b then x else y) ≡ (if b then x' else y)
if_cong true y e = e refl
if_cong false y e = refl

if_both :
    (P : ScdData → Type 0) (b : Bool) {x y : ScdData}
    → (b ≡ true → P x)
    → (b ≡ false → P y)
    → P (if b then x else y)
if_both P true t e = t refl
if_both P false t e = e refl

if_both₂ :
    (b : Bool) (x y : ScdData) {xs : List ℕ}
    → (b ≡ true → contents x ≡ xs)
    → contents (if b then x else y) ≡ (if b then xs else contents y)
if_both₂ true x y t = t refl
if_both₂ false x y t = refl

-- A queue that keeps a write of `input` when two bytes more than it would need are free.
unfoldable pub push : List ℕ → List ℕ → List ℕ
push input queue =
    if leb (length queue + length input + 2) rbuffer_size then queue ++ input else queue

pub length-contents : (d : ScdData) → length (contents d) ≡ used d
unfolding contents
length-contents d = length-tabulate (used d) (slot d)

order : (d : ScdData) → (d.readptr ≤ d.writeptr) ⊎ (d.writeptr < d.readptr)
order d = ground arith

module _ (d : ScdData) (ring : IsRing d) (input : List ℕ) (short : length input + 1 < 2 ^ 32) where
  fits : (leb (used d + length input + 2) rbuffer_size) ≡ true → length input < rbuffer_size
  fits h = ground arith

  scd_cbwrite-if : scd_cbwrite input (length input) d ≡ (
      if leb (used d + length input + 2) rbuffer_size
      then cb_advance d (length input) (cb_store d input (length input))
      else d)
  unfolding scd_cbwrite
  scd_cbwrite-if = elim (order d) [
    | inl h ↦
        let e : leb d.readptr d.writeptr ≡ true = ground arith in
        let f : ltb (sub32 (u32 (sub32 d.buffer_size d.writeptr + d.readptr)) 1)
              (u32 (length input + 1))
            ≡ not (leb (used d + length input + 2) rbuffer_size) =
          ground (arith, ring.size, ring.read_inside, ring.write_inside) in
        rw (e, f) (if-not (leb (used d + length input + 2) rbuffer_size) d _)
    | inr h ↦
        let e : leb d.readptr d.writeptr ≡ false = ground arith in
        let f : ltb (sub32 (sub32 d.readptr d.writeptr) 1) (u32 (length input + 1))
            ≡ not (leb (used d + length input + 2) rbuffer_size) =
          ground (arith, ring.size, ring.read_inside, ring.write_inside) in
        rw (e, f)
          (if-not (leb (used d + length input + 2) rbuffer_size) d _
            ∙ if_cong (leb (used d + length input + 2) rbuffer_size) d (λ k.
              ap (cb_advance d (length input)) (
                ap (λ l. memcpy d.writeptr l d.rbuffer)
                  (take_all (length input) input (omega arith))
                ∙ sym (
                    cb_store_short d ring input (fits k)
                      (ground (arith, ring.read_inside, ring.write_inside))))))
  ]

  module _ (h : leb (used d + length input + 2) rbuffer_size ≡ true) where
    written : ScdData
    written = cb_advance d (length input) (cb_store d input (length input))

    IsRing-cb_advance : IsRing (cb_advance d (length input) (cb_store d input (length input)))
    unfolding cb_advance
    IsRing-cb_advance = record {
      size = ring.size;
      room = length-stored d ring input (fits h);
      read_inside = ring.read_inside;
      write_inside = ground (arith, ring.size, ring.write_inside);
    }

    used-cb_advance :
        used (cb_advance d (length input) (cb_store d input (length input))) ≡ used d + length input
    unfolding cb_advance
    used-cb_advance = ground (arith, ring.size, ring.read_inside, ring.write_inside)

    contents-cb_advance :
        contents (cb_advance d (length input) (cb_store d input (length input)))
        ≡ contents d ++ input
    unfolding contents cb_advance
    contents-cb_advance =
        ap (λ n. tabulate n new_slot) used-cb_advance
        ∙ tabulate-add (used d) (length input) new_slot
        ∙ ap₂ ◌++◌ (tabulate_ext (used d) new_slot (slot d) old) (
            tabulate_ext (length input) (λ i. new_slot (used d + i)) (λ i. get_or input i 0) new
            ∙ tabulate-get_or input 0)
      where
        new_slot : ℕ → ℕ
        new_slot i = get_or (cb_store d input (length input)) ((d.readptr + i) % rbuffer_size) 0

        back :
            (i : ℕ)
            → (d.readptr + i) % rbuffer_size
              ≡ (d.writeptr + (rbuffer_size - used d + i)) % rbuffer_size
        back i = omega (arith, ring.read_inside, ring.write_inside)

        old : (i : ℕ) → i < used d → new_slot i ≡ slot d i
        old i lt =
            ap (λ k. get_or (cb_store d input (length input)) k 0) (back i)
            ∙ get_or-stored_old d ring input (fits h) (rbuffer_size - used d + i) (ground arith)
                (ground arith)
            ∙ ap (λ k. get_or d.rbuffer k 0) (sym (back i))

        new : (i : ℕ) → i < length input → new_slot (used d + i) ≡ get_or input i 0
        new i lt =
            ap (λ k. get_or (cb_store d input (length input)) k 0)
              {x = (d.readptr + (used d + i)) % rbuffer_size} {y = (d.writeptr + i) % rbuffer_size}
              (omega (arith, ring.read_inside, ring.write_inside))
            ∙ get_or-stored_new d ring input (fits h) i lt

  pub scd_cbwrite-IsRing : IsRing (scd_cbwrite input (length input) d)
  scd_cbwrite-IsRing =
      rw scd_cbwrite-if (
        if_both IsRing (leb (used d + length input + 2) rbuffer_size) IsRing-cb_advance (λ h. ring))

  -- `scd_cbwrite` appends the input to the queue when it leaves two bytes of the ring free, and
  -- leaves the queue as it is otherwise.
  pub contents-scd_cbwrite : contents (scd_cbwrite input (length input) d) ≡ push input (contents d)
  unfolding push
  contents-scd_cbwrite =
      rw (scd_cbwrite-if, length-contents d)
        (if_both₂ (leb (used d + length input + 2) rbuffer_size) _ d contents-cb_advance)

pub IsRing-scd_cbinit : (d : ScdData) → length d.rbuffer ≡ rbuffer_size → IsRing (scd_cbinit d)
unfolding scd_cbinit
IsRing-scd_cbinit d h = record {
  size = refl;
  room = h;
  read_inside = omega arith;
  write_inside = omega arith;
}

pub contents-scd_cbinit : (d : ScdData) → contents (scd_cbinit d) ≡ []
unfolding scd_cbinit contents
contents-scd_cbinit d = refl
