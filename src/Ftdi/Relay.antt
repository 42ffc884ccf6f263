-- ===== src/Ftdi/Relay.antt =====
-- `write_all_ftdi` of src/ftdi_gdb.cpp: what it writes, and that it ends.
use ftx.Base.{ℕ, zero, suc, ◌+◌, ◌*◌, ◌/◌, ◌≤◌, min, max, ◌≡◌, refl, sym, ap, ◌∙◌, arith}
use ftx.Base.{Bool, true, false, List, [], ◌∷◌, ◌++◌, append-nil, append_assoc, Option, none, some}
use ftx.Base.{length, take, drop, length-take, length-drop, take-add, ltb}
use ftx.Base.{if◌then◌else◌}
use ftx.Xfer.Link.{Answer, failed, moved, Link, Run, value, ftdi_write_data, answer_write}
use ftx.Xfer.Exchange.{Ensures, Ensures-bind, Ensures-weaken}
use ftx.Ftdi.Proxy.{write_chunk, write_rounds, enough_rounds, write_all_ftdi}

-- A chunk of which `k` bytes went out; none of it, if no attempt wrote.
abbrev pub Sent : Link → List ℕ → Option ℕ → Link → Type 0
Sent l chunk none l' = l'.sent ≡ l.sent
Sent l chunk (some k) l' = (l'.sent ≡ l.sent ++ take k chunk) × (1 ≤ k) × (k ≤ length chunk)

-- What one call has written.
abbrev Wrote : Link → List ℕ → Option ℕ → Link → Type 0
Wrote l chunk none l' = l'.sent ≡ l.sent
Wrote l chunk (some k) l' = (l'.sent ≡ l.sent ++ take k chunk) × (k ≤ length chunk)

answer_write_lem :
    (answers : List Answer) (chunk : List ℕ) (l : Link)
    → Ensures (Wrote l chunk) (answer_write answers chunk l)
answer_write_lem [] chunk l = tt
answer_write_lem (failed ∷ more) chunk l = refl
answer_write_lem (moved n raised ∷ more) chunk l = (refl, omega arith)

Sent-after :
    (l l' l'' : Link) (chunk : List ℕ) (n : Option ℕ)
    → l'.sent ≡ l.sent
    → Sent l' chunk n l''
    → Sent l chunk n l''
Sent-after l l' l'' chunk none e h = h ∙ e
Sent-after l l' l'' chunk (some k) e (es, h₁, hk) = (es ∙ rw e refl, h₁, hk)

module _ (purge : List ℕ → List ℕ) where
  pub write_chunk_lem :
      (left : ℕ) (chunk : List ℕ) (l : Link)
      → Ensures (Sent l chunk) (write_chunk purge left chunk l)
  unfolding write_chunk ftdi_write_data
  write_chunk_lem zero chunk l = refl
  write_chunk_lem (suc left) chunk l =
      Ensures-bind (Wrote l chunk) (Sent l chunk) (answer_write l.answers chunk l) _
        (answer_write_lem l.answers chunk l) λ n l' h. next (write_chunk_lem left chunk) n l' h
    where
      again_at :
          ((m : Link) → Ensures (Sent m chunk) (write_chunk purge left chunk m))
          → (l' : Link) → l'.sent ≡ l.sent
          → Ensures (Sent l chunk) (write_chunk purge left chunk l')
      again_at again l' e =
          Ensures-weaken (Sent l' chunk) (Sent l chunk) _ (again l')
            λ k l'' h. Sent-after l l' l'' chunk k e h

      next :
          ((m : Link) → Ensures (Sent m chunk) (write_chunk purge left chunk m))
          → (n : Option ℕ) (l' : Link) → Wrote l chunk n l'
          → Ensures (Sent l chunk) (elim n [
            | none ↦ write_chunk purge left chunk (record l' { incoming = purge l'.incoming })
            | some zero ↦ write_chunk purge left chunk l'
            | some (suc k) ↦ value (some (suc k)) l'
          ])
      next again none l' e = again_at again (record l' { incoming = purge l'.incoming }) e
      next again (some zero) l' (e, hk) = again_at again l' (e ∙ append-nil l.sent)
      next again (some (suc k)) l' (e, hk) = (e, omega arith, hk)

-- What the loop has written when it ends: the first `total` bytes, and all of them on success.
abbrev pub Relayed : Link → List ℕ → ℕ → ℕ × Bool → Link → Type 0
Relayed l bytes before (total, ok) l' =
    (k : ℕ) × (total ≡ before + k)
    × (k ≤ length bytes)
    × (l'.sent ≡ l.sent ++ take k bytes)
    × (ok ≡ true → k ≡ length bytes)

take-take : (k m : ℕ) (xs : List ℕ) → k ≤ m → take k (take m xs) ≡ take k xs
take-take zero m xs h = refl
take-take (suc k) zero xs h = absurd (omega arith)
take-take (suc k) (suc m) [] h = refl
take-take (suc k) (suc m) (x ∷ xs) h = ap (λ l. x ∷ l) (take-take k m xs (omega arith))

Relayed-after :
    (l l' l'' : Link) (bytes : List ℕ) (before m k : ℕ) (result : ℕ × Bool)
    → l'.sent ≡ l.sent ++ take k (take m bytes)
    → k ≤ length (take m bytes)
    → Relayed l' (drop k bytes) (before + k) result l''
    → Relayed l bytes before result l''
Relayed-after l l' l'' bytes before m k (total, ok) e hk (j, et, hj, es, all) =
    let short : k ≤ m = omega (arith, length-take m bytes) in
    (
      k + j,
      omega arith,
      omega (arith, length-take m bytes, length-drop k bytes),
      es
          ∙ rw (e, take-take k m bytes short)
              (append_assoc l.sent (take k bytes) (take j (drop k bytes))
                ∙ ap (λ t. l.sent ++ t) (take-add k j bytes)),
      λ yes.
          let ej : j ≡ length (drop k bytes) = all yes in
          omega (arith, length-take m bytes, length-drop k bytes),
    )

Relayed-still :
    (l l' l'' : Link) (bytes : List ℕ) (before : ℕ) (result : ℕ × Bool)
    → l'.sent ≡ l.sent
    → Relayed l' bytes before result l''
    → Relayed l bytes before result l''
Relayed-still l l' l'' bytes before (total, ok) e (j, et, hj, es, all) =
    (j, et, hj, es ∙ rw e refl, all)

Ensures-if :
    {A : Type 0} (Q : A → Link → Type 0) (t : Bool) (r q : Run A)
    → Ensures Q r
    → Ensures Q q
    → Ensures Q (if t then r else q)
Ensures-if Q true r q h g = h
Ensures-if Q false r q h g = g

module _ (purge : List ℕ → List ℕ) where
  write_rounds_lem :
      (fuel most before : ℕ) (bytes : List ℕ) (l : Link)
      → Ensures (Relayed l bytes before) (write_rounds purge fuel most before bytes l)
  unfolding write_rounds
  write_rounds_lem fuel most before [] l =
      (0, omega arith, omega arith, sym (append-nil l.sent), λ _. refl)
  write_rounds_lem zero most before (b ∷ bs) l = tt
  write_rounds_lem (suc fuel) most before (b ∷ bs) l =
      Ensures-bind (Sent l (take m (b ∷ bs))) (Relayed l (b ∷ bs) before)
        (write_chunk purge 3 (take m (b ∷ bs)) l) _ (write_chunk_lem purge 3 (take m (b ∷ bs)) l)
        λ n l' h.
          next (λ most' before' bytes' l''. write_rounds_lem fuel most' before' bytes' l'') n l' h
    where
      m : ℕ
      m = min most (length (b ∷ bs))

      next :
          ((most' before' : ℕ) (bytes' : List ℕ) (l'' : Link)
            → Ensures
                (Relayed l'' bytes' before')
                (write_rounds purge fuel most' before' bytes' l''))
          → (n : Option ℕ) (l' : Link) → Sent l (take m (b ∷ bs)) n l'
          → Ensures (Relayed l (b ∷ bs) before) (elim n [
            | some k ↦ write_rounds purge fuel (min 64 (most * 2)) (before + k) (drop k (b ∷ bs)) l'
            | none ↦
                let again = write_rounds purge fuel (max 1 (most / 2)) before (b ∷ bs) l' in
                if ltb 1 most then again else value (before, false) l'
          ])
      next again none l' e =
          Ensures-if (Relayed l (b ∷ bs) before) (ltb 1 most) _ _
            (Ensures-weaken (Relayed l' (b ∷ bs) before) (Relayed l (b ∷ bs) before) _
              (again (max 1 (most / 2)) before (b ∷ bs) l')
              λ result l'' h. Relayed-still l l' l'' (b ∷ bs) before result e h)
            (0, omega arith, omega arith, e ∙ sym (append-nil l.sent), λ yes. absurd (cc))
      next again (some k) l' (e, hk₁, hk) =
          Ensures-weaken (Relayed l' (drop k (b ∷ bs)) (before + k)) (Relayed l (b ∷ bs) before) _
            (again (min 64 (most * 2)) (before + k) (drop k (b ∷ bs)) l')
            λ result l'' h. Relayed-after l l' l'' (b ∷ bs) before m k result e hk h

  -- However the driver splits and refuses, and whatever a purge leaves of the bytes to be read: when
  -- `write_all_ftdi` ends, the driver has accepted the first `written_out` bytes in order and each
  -- once, and all of them if it returns true. What a purge does with bytes accepted is not said.
  pub write_all_ftdi-Relayed :
      (bytes : List ℕ) (l : Link) → Ensures (Relayed l bytes 0) (write_all_ftdi purge bytes l)
  unfolding write_all_ftdi
  write_all_ftdi-Relayed bytes l = write_rounds_lem (enough_rounds bytes) 64 0 bytes l
