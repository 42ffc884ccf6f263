-- ===== src/Xfer/Progress.antt =====
-- A driver that makes progress, under which the loops of src/xfer.cpp come to their ends.
pub mod Frames
pub mod Download
use ftx.Base.{ℕ, zero, suc, ◌+◌, ◌-◌, ◌≤◌, ◌<◌, min, ◌≡◌, refl, sym, ap, ◌∙◌, arith}
use ftx.Base.{true, false, List, [], ◌∷◌, ◌++◌, append-nil, append_assoc, Option, none, some}
use ftx.Base.{length, take, drop, length-take, length-drop, length-append, take-append-drop, leb}
use ftx.Base.{leb_of_lt, length_zero, if◌then◌else◌}
use ftx.Xfer.Link.{Answer, failed, moved, Run, value, bind, write_loop, write_rest}
use ftx.Xfer.Upload.{calm}
use ftx.Xfer.Attempt.{Attempt, ◌>>=◌}
use ftx.Xfer.Remote.{write_all_to_device, write_payload, read_loop, read_exact_from_device}

-- No call fails, nobody interrupts the program, and fewer than `most` calls in a row move nothing,
-- of which the last `idle` have passed.
abbrev pub Lively : ℕ → ℕ → List Answer → Type 0
Lively most idle [] = Unit {0}
Lively most idle (failed ∷ more) = ⊥
Lively most idle (moved n true ∷ more) = ⊥
Lively most idle (moved zero false ∷ more) = (suc idle < most) × Lively most (suc idle) more
Lively most idle (moved (suc n) false ∷ more) = Lively most 0 more

-- The calls that move something.
abbrev pub moves : List Answer → ℕ
moves [] = 0
moves (failed ∷ more) = moves more
moves (moved zero raised ∷ more) = moves more
moves (moved (suc n) raised ∷ more) = suc (moves more)

Lively-sooner :
    (most idle idle' : ℕ) (answers : List Answer)
    → idle' ≤ idle
    → Lively most idle answers
    → Lively most idle' answers
Lively-sooner most idle idle' [] h live = tt
Lively-sooner most idle idle' (moved zero false ∷ more) h (lt, live) =
    (omega arith, Lively-sooner most (suc idle) (suc idle') more (omega arith) live)
Lively-sooner most idle idle' (moved (suc n) false ∷ more) h live = live
Lively-sooner most idle idle' (failed ∷ more) h live = absurd live
Lively-sooner most idle idle' (moved zero true ∷ more) h live = absurd live
Lively-sooner most idle idle' (moved (suc n) true ∷ more) h live = absurd live

module _ (most : ℕ) {A : Type 0} where
  -- The call comes to its end with `a`, after at most `n` calls that moved something.
  abbrev pub Reaches : List Answer → ℕ → Run A → A → List ℕ → List ℕ → ℕ → Type 0
  Reaches answers n run a incoming sent recv_buf =
      (rest : List Answer) × Lively most 0 rest
      × (moves answers ≤ moves rest + n)
      × (run ≡ value a (calm rest incoming sent recv_buf))

write_loop-moved :
    (most n k : ℕ) (more : List Answer) (b : ℕ) (bs incoming sent : List ℕ) (recv_buf : ℕ)
    → min n (length (b ∷ bs)) ≡ k
    → moves (moved n false ∷ more) ≤ moves more + k
    → Reaches most more
        (length (drop k (b ∷ bs)))
        (write_loop more (drop k (b ∷ bs)) (calm more incoming (sent ++ take k (b ∷ bs)) recv_buf))
        (some [])
        incoming
        ((sent ++ take k (b ∷ bs)) ++ drop k (b ∷ bs))
        recv_buf
    → Reaches most
        (moved n false ∷ more)
        (length (b ∷ bs))
        (write_loop
          (moved n false ∷ more)
          (b ∷ bs)
          (calm (moved n false ∷ more) incoming sent recv_buf))
        (some [])
        incoming
        (sent ++ (b ∷ bs))
        recv_buf
unfolding write_loop
write_loop-moved most n k more b bs incoming sent buf ek hk (rest, live, hm, e) = (
  rest,
  live,
  omega (arith, length-drop k (b ∷ bs)),
  rw ek e
      ∙ ap (λ t. value (some []) (calm rest incoming t buf))
          (append_assoc sent (take k (b ∷ bs)) (drop k (b ∷ bs))
            ∙ ap (λ t. sent ++ t) (take-append-drop k (b ∷ bs))),
)

write_loop_live :
    (most idle : ℕ) (answers : List Answer) (bytes incoming sent : List ℕ) (recv_buf : ℕ)
    → Lively most idle answers
    → length bytes ≤ moves answers
    → Reaches most answers
        (length bytes)
        (write_loop answers bytes (calm answers incoming sent recv_buf))
        (some [])
        incoming
        (sent ++ bytes)
        recv_buf
unfolding write_loop
write_loop_live most idle [] [] incoming sent buf live h =
    ([], tt, omega arith, rw (append-nil sent) refl)
write_loop_live most idle (a ∷ more) [] incoming sent buf live h = (
  a ∷ more,
  Lively-sooner most idle 0 (a ∷ more) (omega arith) live,
  omega arith,
  rw (append-nil sent) refl,
)
write_loop_live most idle [] (b ∷ bs) incoming sent buf live h = absurd (omega arith)
write_loop_live most idle (failed ∷ more) (b ∷ bs) incoming sent buf live h = absurd live
write_loop_live most idle (moved zero true ∷ more) (b ∷ bs) incoming sent buf live h = absurd live
write_loop_live most idle (moved (suc n) true ∷ more) (b ∷ bs) incoming sent buf live h =
    absurd live
write_loop_live most idle (moved zero false ∷ more) (b ∷ bs) incoming sent buf (lt, live) h =
    write_loop-moved most zero 0 more b bs incoming sent buf (omega arith) (omega arith)
      (write_loop_live most (suc idle) more (b ∷ bs) incoming (sent ++ []) buf live h)
write_loop_live most idle (moved (suc n) false ∷ more) (b ∷ bs) incoming sent buf live h =
    let k : ℕ = min (suc n) (length (b ∷ bs)) in
    write_loop-moved most (suc n) k more b bs incoming sent buf refl (omega arith) (
      write_loop_live most 0 more (drop k (b ∷ bs)) incoming (sent ++ take k (b ∷ bs)) buf live
        (omega (arith, length-drop k (b ∷ bs))))

take-append_left : (k : ℕ) (xs ys : List ℕ) → k ≤ length xs → take k (xs ++ ys) ≡ take k xs
take-append_left zero xs ys h = refl
take-append_left (suc k) [] ys h = absurd (omega arith)
take-append_left (suc k) (x ∷ xs) ys h = ap (λ l. x ∷ l) (take-append_left k xs ys (omega arith))

drop-append_left : (k : ℕ) (xs ys : List ℕ) → k ≤ length xs → drop k (xs ++ ys) ≡ drop k xs ++ ys
drop-append_left zero xs ys h = refl
drop-append_left (suc k) [] ys h = absurd (omega arith)
drop-append_left (suc k) (x ∷ xs) ys h = drop-append_left k xs ys (omega arith)

-- One call of the loop that delivers something.
read_loop-moved :
    (most idle n j : ℕ) (more : List Answer) (b : ℕ) (bs later got sent : List ℕ) (recv_buf : ℕ)
    → min n (length bs) ≡ j
    → read_loop
        (moved (suc n) false ∷ more)
        (length (b ∷ bs))
        idle
        most
        got
        (calm (moved (suc n) false ∷ more) (b ∷ (bs ++ later)) sent recv_buf)
      ≡ read_loop more
          (length (drop j bs))
          0
          most
          (got ++ (b ∷ take j bs))
          (calm more (drop j bs ++ later) sent recv_buf)
unfolding read_loop
read_loop-moved most idle n j more b bs later got sent buf ej =
    let ek : min (suc n) (suc (length bs)) ≡ suc j = omega arith in
    let el : suc (length bs) - suc (length (take j bs)) ≡ length (drop j bs) =
      omega (arith, length-take j bs, length-drop j bs) in
    rw (ek, take-append_left j bs later (omega arith), drop-append_left j bs later (omega arith))
      (ap
        (λ left.
          read_loop more left 0 most (got ++ (b ∷ take j bs))
            (calm more (drop j bs ++ later) sent buf))
        el)

read_loop_live :
    (most idle : ℕ) (answers : List Answer) (first later got sent : List ℕ) (recv_buf : ℕ)
    → Lively most idle answers
    → length first ≤ moves answers
    → Reaches most answers
        (length first)
        (read_loop answers
          (length first)
          idle
          most
          got
          (calm answers (first ++ later) sent recv_buf))
        (some (got ++ first))
        later
        sent
        recv_buf
unfolding read_loop
read_loop_live most idle answers [] later got sent buf live h = (
  answers,
  Lively-sooner most idle 0 answers (omega arith) live,
  omega arith,
  rw (append-nil got) refl,
)
read_loop_live most idle [] (b ∷ bs) later got sent buf live h = absurd (omega arith)
read_loop_live most idle (failed ∷ more) (b ∷ bs) later got sent buf live h = absurd live
read_loop_live most idle (moved zero true ∷ more) (b ∷ bs) later got sent buf live h = absurd live
read_loop_live most idle (moved (suc n) true ∷ more) (b ∷ bs) later got sent buf live h =
    absurd live
read_loop_live most idle (moved zero false ∷ more) (b ∷ bs) later got sent buf (lt, live) h =
    let ek : min zero (suc (length bs)) ≡ 0 = omega arith in
    let (rest, live', hm, e) =
      read_loop_live most (suc idle) more (b ∷ bs) later got sent buf live h in
    (rest, live', hm, rw (ek, leb_of_lt most (suc idle) lt) e)
read_loop_live most idle (moved (suc n) false ∷ more) (b ∷ bs) later got sent buf live h =
    let j : ℕ = min n (length bs) in
    let (rest, live', hm, e) =
      read_loop_live most 0 more (drop j bs) later (got ++ (b ∷ take j bs)) sent buf live
        (omega (arith, length-drop j bs)) in
    (
      rest,
      live',
      omega (arith, length-drop j bs),
      read_loop-moved most idle n j more b bs later got sent buf refl
          ∙ (e
              ∙ ap (λ t. value (some t) (calm rest later sent buf))
                  (append_assoc got (b ∷ take j bs) (drop j bs)
                    ∙ ap (λ t. got ++ (b ∷ t)) (take-append-drop j bs))),
    )

-- `WriteAllToDevice`
pub write_all_to_device_live :
    (most : ℕ) (answers : List Answer) (bytes incoming sent : List ℕ) (recv_buf : ℕ)
    → Lively most 0 answers
    → length bytes ≤ moves answers
    → Reaches most answers
        (length bytes)
        (write_all_to_device bytes (calm answers incoming sent recv_buf))
        (some tt)
        incoming
        (sent ++ bytes)
        recv_buf
unfolding write_all_to_device write_rest
write_all_to_device_live most answers bytes incoming sent buf live h =
    let (rest, live', hm, e) = write_loop_live most 0 answers bytes incoming sent buf live h in
    (rest, live', hm, rw e refl)

pub write_payload_live :
    (most : ℕ) (answers : List Answer) (bytes incoming sent : List ℕ) (recv_buf : ℕ)
    → Lively most 0 answers
    → length bytes ≤ moves answers
    → Reaches most answers
        (length bytes)
        (write_payload bytes (calm answers incoming sent recv_buf))
        (some tt)
        incoming
        (sent ++ bytes)
        recv_buf
unfolding write_payload
write_payload_live most answers [] incoming sent buf live h =
    (answers, live, omega arith, rw (append-nil sent) refl)
write_payload_live most answers (b ∷ bs) incoming sent buf live h =
    write_all_to_device_live most answers (b ∷ bs) incoming sent buf live h

-- Under a driver that makes progress, `ReadExactFromDevice` comes to its end, with the bytes that
-- it was asked for, if the device sends them.
pub read_exact_from_device_live :
    (most : ℕ) (answers : List Answer) (first later sent : List ℕ) (recv_buf : ℕ)
    → Lively most 0 answers
    → length first ≤ moves answers
    → Reaches most answers
        (length first)
        (read_exact_from_device (length first) most (calm answers (first ++ later) sent recv_buf))
        (some first)
        later
        sent
        recv_buf
unfolding read_exact_from_device
read_exact_from_device_live most answers first later sent buf live h =
    read_loop_live most 0 answers first later [] sent buf live h
