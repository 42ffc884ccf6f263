-- ===== src/RomFs/Ranges.antt =====
-- The part of a file that a range has, and `select_range`.
use ftx.Base.{ℕ, zero, suc, ◌+◌, ◌-◌, ◌^◌, ◌≤◌, ◌<◌, ◌≡◌, refl, sym, ap, ap₂, ◌∙◌, arith}
use ftx.Base.{List, [], ◌∷◌, ◌++◌, length, take, drop, length-take, take_all, drop_all}
use ftx.Base.{◌⊎◌, inl, inr, Bool, true, false, ◌&&◌, ltb, leb, if◌then◌else◌}
use ftx.RomFs.{u32, select_range}

abbrev pub join : List (List ℕ) → List ℕ
join [] = []
join (xs ∷ xss) = xs ++ join xss

take-append : (m : ℕ) (xs ys : List ℕ) → take m (xs ++ ys) ≡ take m xs ++ take (m - length xs) ys
take-append zero xs ys = ap (λ n. take n ys) {x = 0} (omega arith)
take-append (suc m) [] ys = let e : suc m - 0 ≡ suc m = omega arith in rw e refl
take-append (suc m) (x ∷ xs) ys =
    let e : suc m - suc (length xs) ≡ m - length xs = omega arith in
    rw e (ap (λ l. x ∷ l) (take-append m xs ys))

drop-append : (m : ℕ) (xs ys : List ℕ) → drop m (xs ++ ys) ≡ drop m xs ++ drop (m - length xs) ys
drop-append zero xs ys = ap (λ n. xs ++ drop n ys) {x = 0} (omega arith)
drop-append (suc m) [] ys = let e : suc m - 0 ≡ suc m = omega arith in rw e refl
drop-append (suc m) (x ∷ xs) ys =
    let e : suc m - suc (length xs) ≡ m - length xs = omega arith in rw e (drop-append m xs ys)

drop-take : (n m : ℕ) (xs : List ℕ) → drop n (take (n + m) xs) ≡ take m (drop n xs)
drop-take zero m xs = ap (λ k. take k xs) (omega arith)
drop-take (suc n) m [] =
    let e : suc n + m ≡ suc (n + m) = omega arith in rw e (sym (take_all m [] (omega arith)))
drop-take (suc n) m (x ∷ xs) =
    let e : suc n + m ≡ suc (n + m) = omega arith in rw e (drop-take n m xs)

-- The part of `xs`, which begins `k` bytes into a file, that the range from `offset` to `end` has.
abbrev pub part : ℕ → ℕ → ℕ → List ℕ → List ℕ
part offset end k xs = drop (offset - k) (take (end - k) xs)

pub part-append :
    (offset end k : ℕ) (xs ys : List ℕ)
    → offset ≤ end
    → part offset end k (xs ++ ys) ≡ part offset end k xs ++ part offset end (k + length xs) ys
part-append offset end k xs ys h =
    take_part
    ∙ drop-append (offset - k) (take (end - k) xs) (take (end - (k + length xs)) ys)
    ∙ ap (λ l. part offset end k xs ++ l) rest
  where
    take_part :
        part offset end k (xs ++ ys)
        ≡ drop (offset - k) (take (end - k) xs ++ take (end - (k + length xs)) ys)
    take_part =
        let e : end - k - length xs ≡ end - (k + length xs) = omega arith in
        ap (drop (offset - k)) (take-append (end - k) xs ys ∙ rw e refl)

    reaches : (end ≤ k + length xs) ⊎ (k + length xs < end)
    reaches = ground arith

    rest :
        drop (offset - k - length (take (end - k) xs)) (take (end - (k + length xs)) ys)
        ≡ part offset end (k + length xs) ys
    rest = elim reaches [
      | inl h' ↦
          let e : end - (k + length xs) ≡ 0 = omega arith in
          rw e (drop_all _ [] (omega arith) ∙ sym (drop_all _ [] (omega arith)))
      | inr h' ↦
          ap (λ n. drop n (take (end - (k + length xs)) ys))
            (omega (arith, length-take (end - k) xs))
    ]

part_nil : (offset end k : ℕ) → part offset end k [] ≡ []
part_nil offset end k =
    drop_all (offset - k) (take (end - k) []) (omega (arith, length-take {A = ℕ} (end - k) []))

pub part_zero :
    (offset size : ℕ) (xs : List ℕ) → part offset (offset + size) 0 xs ≡ take size (drop offset xs)
part_zero offset size xs =
    let e : offset - 0 ≡ offset = omega arith in
    let f : offset + size - 0 ≡ offset + size = omega arith in rw (e, f) (drop-take offset size xs)

pub part_past : (offset end k : ℕ) (xs : List ℕ) → end ≤ k → part offset end k xs ≡ []
part_past offset end k xs h =
    let e : end - k ≡ 0 = omega arith in rw e (drop_all (offset - k) [] (omega arith))

part_one :
    (offset end k x : ℕ)
    → part offset end k (x ∷ []) ≡ (if leb offset k && ltb k end then x ∷ [] else [])
part_one offset end k x = elim place [
  | inl h ↦
      let c : leb offset k && ltb k end ≡ false = ground arith in
      rw c (
        drop_all (offset - k) (take (end - k) (x ∷ []))
          (omega (arith, length-take (end - k) (x ∷ []))))
  | inr (inl h) ↦
      let c : leb offset k && ltb k end ≡ false = ground arith in
      let e : end - k ≡ 0 = omega arith in rw (c, e) (drop_all (offset - k) [] (omega arith))
  | inr (inr h) ↦
      let c : leb offset k && ltb k end ≡ true = ground (arith, h.0, h.1) in
      let e : offset - k ≡ 0 = omega (arith, h.0) in
      rw (c, e) (take_all (end - k) (x ∷ []) (omega (arith, h.1)))
]
  where
    place : (k < offset) ⊎ ((end ≤ k) ⊎ ((offset ≤ k) × (k < end)))
    place = ground arith

if_cons :
    (b : Bool) (x : ℕ) (xs : List ℕ) → (if b then x ∷ xs else xs) ≡ (if b then x ∷ [] else []) ++ xs
if_cons true x xs = refl
if_cons false x xs = refl

pub select_range-part :
    (offset size k : ℕ) (xs : List ℕ)
    → offset + size < 2 ^ 32
    → k + length xs < 2 ^ 32
    → select_range k offset size xs ≡ part offset (offset + size) k xs
unfolding select_range
select_range-part offset size k [] h fits = sym (part_nil offset (offset + size) k)
select_range-part offset size k (x ∷ xs) h fits =
    let e : u32 (k + 1) ≡ k + 1 = omega arith in
    let f : u32 (offset + size) ≡ offset + size = omega arith in
    let end = offset + size in
    rw (e, f)
      (if_cons (leb offset k && ltb k end) x (select_range (k + 1) offset size xs)
        ∙ ap₂ ◌++◌ (sym (part_one offset end k x))
            (select_range-part offset size (k + 1) xs h (omega arith))
        ∙ sym (part-append offset end k (x ∷ []) xs (omega arith)))
