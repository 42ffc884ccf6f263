-- ===== src/Ftdi/Rounds.antt =====
-- The loop of `write_all_ftdi` of src/ftdi_gdb.cpp comes to its end.
use ftx.Base.{ℕ, zero, suc, ◌+◌, ◌*◌, ◌/◌, ◌^◌, ◌≤◌, ◌<◌, min, max, ◌≡◌, refl, sym, ap, ◌∙◌, arith}
use ftx.Base.{
  Bool, true, false, ltb→lt, List, [], ◌∷◌, Option, none, some, length, take, drop, length-drop,
  ltb,
}
use ftx.Base.{if◌then◌else◌}
use ftx.Base.Powers.{pow_add}
use ftx.Xfer.Link.{
  Answer, failed, moved, Link, Run, value, hang, bind, answer_write, ftdi_write_data,
}
use ftx.Xfer.Exchange.{Ensures}
use ftx.Ftdi.Proxy.{write_chunk, write_rounds, enough_rounds, write_all_ftdi}
use ftx.Ftdi.Relay.{Sent, write_chunk_lem}

-- A chunk that can be halved.
halved : (most h : ℕ) → 1 < most → most ≤ 2 ^ h → (g : ℕ) × (h ≡ suc g) × (max 1 (most / 2) ≤ 2 ^ g)
halved most zero lt hm = absurd (omega arith)
halved most (suc g) lt hm =
    let n : suc g ≡ 1 + g = omega arith in
    let e : 2 ^ suc g ≡ 2 ^ 1 * 2 ^ g = ap (λ k. 2 ^ k) n ∙ pow_add 1 g in
    let hm' : most ≤ 2 ^ 1 * 2 ^ g = rw (sym e) hm in (g, refl, omega arith)

-- A run comes to an end and leaves at least `k` answers of the driver unused.
abbrev pub Leaves : {A : Type 0} → ℕ → Run A → Type 0
Leaves k (value a l) = k ≤ length l.answers
Leaves k hang = ⊥

Leaves-bind :
    {A B : Type 0} (Q : A → Link → Type 0) (j k : ℕ) (r : Run A) (f : A → Link → Run B)
    → Leaves j r
    → Ensures Q r
    → ((a : A) (l : Link) → Q a l → j ≤ length l.answers → Leaves k (f a l))
    → Leaves k (bind r f)
Leaves-bind Q j k (value a l) f h q next = next a l q h
Leaves-bind Q j k hang f h q next = h

Leaves-if :
    {A : Type 0} (k : ℕ) (t : Bool) (r q : Run A)
    → (t ≡ true → Leaves k r)
    → Leaves k q
    → Leaves k (if t then r else q)
Leaves-if k true r q h g = h refl
Leaves-if k false r q h g = g

Leaves-answer_write :
    (answers : List Answer) (chunk : List ℕ) (l : Link) (k : ℕ)
    → 1 + k ≤ length answers
    → Leaves k (answer_write answers chunk l)
Leaves-answer_write [] chunk l k h = absurd (omega arith)
Leaves-answer_write (failed ∷ more) chunk l k h = omega arith
Leaves-answer_write (moved n raised ∷ more) chunk l k h = omega arith

any_end : {A : Type 0} (r : Run A) → Ensures (λ a l. Unit {0}) r
any_end (value a l) = tt
any_end hang = tt

module _ (purge : List ℕ → List ℕ) where
  Leaves-write_chunk :
      (left : ℕ) (chunk : List ℕ) (l : Link) (k : ℕ)
      → left + k ≤ length l.answers
      → Leaves k (write_chunk purge left chunk l)
  unfolding write_chunk ftdi_write_data
  Leaves-write_chunk zero chunk l k h = omega arith
  Leaves-write_chunk (suc left) chunk l k h =
      Leaves-bind (λ a m. Unit {0}) (left + k) k (answer_write l.answers chunk l) _
        (Leaves-answer_write l.answers chunk l (left + k) (omega arith))
        (any_end (answer_write l.answers chunk l))
        λ n l' q hl. next (λ m hm. Leaves-write_chunk left chunk m k hm) n l' hl
    where
      next :
          ((m : Link) → left + k ≤ length m.answers → Leaves k (write_chunk purge left chunk m))
          → (n : Option ℕ) (l' : Link) → left + k ≤ length l'.answers
          → Leaves k (elim n [
            | none ↦ write_chunk purge left chunk (record l' { incoming = purge l'.incoming })
            | some zero ↦ write_chunk purge left chunk l'
            | some (suc i) ↦ value (some (suc i)) l'
          ])
      next again none l' hl = again (record l' { incoming = purge l'.incoming }) hl
      next again (some zero) l' hl = again l' hl
      next again (some (suc i)) l' hl = omega arith

  -- A round has three calls; there are seven for each byte, and one for each time that the chunk can
  -- still be halved.
  Leaves-write_rounds :
      (fuel most h before : ℕ) (bytes : List ℕ) (l : Link) (k : ℕ)
      → most ≤ 2 ^ h
      → h ≤ 6
      → 7 * length bytes + h < fuel
      → 3 * (7 * length bytes + h + 1) + k ≤ length l.answers
      → Leaves k (write_rounds purge fuel most before bytes l)
  unfolding write_rounds
  Leaves-write_rounds fuel most h before [] l k hm hh hf ha = omega arith
  Leaves-write_rounds zero most h before (b ∷ bs) l k hm hh hf ha = absurd (omega arith)
  Leaves-write_rounds (suc fuel) most h before (b ∷ bs) l k hm hh hf ha =
      Leaves-bind (Sent l chunk) (3 * (7 * length (b ∷ bs) + h) + k) k (write_chunk purge 3 chunk l)
        _ (Leaves-write_chunk 3 chunk l _ (omega arith)) (write_chunk_lem purge 3 chunk l)
        λ n l' s hl.
          next
            (λ most' h' before' bytes' m e e' e'' he.
              Leaves-write_rounds fuel most' h' before' bytes' m k e e' e'' he)
            n l' s hl
    where
      chunk : List ℕ
      chunk = take (min most (length (b ∷ bs))) (b ∷ bs)

      next :
          ((most' h' before' : ℕ) (bytes' : List ℕ) (m : Link)
            → most' ≤ 2 ^ h'
            → h' ≤ 6
            → 7 * length bytes' + h' < fuel
            → 3 * (7 * length bytes' + h' + 1) + k ≤ length m.answers
            → Leaves k (write_rounds purge fuel most' before' bytes' m))
          → (n : Option ℕ) (l' : Link) → Sent l chunk n l'
          → 3 * (7 * length (b ∷ bs) + h) + k ≤ length l'.answers
          → Leaves k (elim n [
            | some i ↦ write_rounds purge fuel (min 64 (most * 2)) (before + i) (drop i (b ∷ bs)) l'
            | none ↦
                let again = write_rounds purge fuel (max 1 (most / 2)) before (b ∷ bs) l' in
                if ltb 1 most then again else value (before, false) l'
          ])
      next again none l' s hl =
          Leaves-if k (ltb 1 most) _ _
            (λ lt.
              let (g, eg, hg) = halved most h (ltb→lt 1 most lt) hm in
              again (max 1 (most / 2)) g before (b ∷ bs) l' hg (omega arith) (omega arith)
                (omega arith))
            (omega arith)
      next again (some i) l' (e, h₁, hi) hl =
          again (min 64 (most * 2)) 6 (before + i) (drop i (b ∷ bs)) l' (omega arith) (omega arith)
            (omega (arith, length-drop i (b ∷ bs))) (omega (arith, length-drop i (b ∷ bs)))

  -- `write_all_ftdi` returns for every driver that answers its calls, whatever it answers: it makes
  -- at most 21 calls of `ftdi_write_data` for each byte and 21 more, so that with that many answers
  -- and `k` more it comes to its end and leaves `k` of them.
  pub write_all_ftdi-Leaves :
      (bytes : List ℕ) (l : Link) (k : ℕ)
      → 21 * length bytes + 21 + k ≤ length l.answers
      → Leaves k (write_all_ftdi purge bytes l)
  unfolding write_all_ftdi
  write_all_ftdi-Leaves bytes l k h =
      Leaves-write_rounds (enough_rounds bytes) 64 6 0 bytes l k (omega arith) (omega arith)
        (omega arith) (omega arith)
