-- ===== src/SatFile/Buffer.antt =====
-- What `scf_filename_bufferize` keeps of a path.
use ftx.Base.{ℕ, zero, suc, ◌+◌, ◌-◌, ◌≤◌, ◌<◌, min, ◌≡◌, refl, sym, ap, ap₂, ◌∙◌, arith, inl, inr}
use ftx.Base.{
  List, [], ◌∷◌, ◌++◌, length, All, take, replicate, append_assoc, append-nil, split_lt, take_all,
  length-take, length-append,
}
use ftx.SatFile.Names.{copy_name, scf_filename_bufferize, pathname_maxlen}
use ftx.SatFile.Names.{to_slash}
use ftx.SatFile.Paths.{IsChar}
use ftx.Base.{eqb_of_ne, ◌==◌, false}

-- The characters of a path with slashes for its backslashes.
abbrev pub slashes : List ℕ → List ℕ
slashes [] = []
slashes (c ∷ cs) = to_slash c ∷ slashes cs

copy_name-whole :
    (n : ℕ) (name more : List ℕ)
    → All IsChar name
    → length name < n
    → copy_name n (name ++ (0 ∷ more)) ≡ slashes name ++ (0 ∷ [])
unfolding copy_name
copy_name-whole zero name more h le = absurd (omega arith)
copy_name-whole (suc n) [] more h le = refl
copy_name-whole (suc n) (c ∷ cs) more h le =
    let e : (c == 0) ≡ false = eqb_of_ne c 0 h.0 in
    rw e (ap (λ l. to_slash c ∷ l) (copy_name-whole n cs more h.1 (omega arith)))

copy_name-part :
    (n : ℕ) (name more : List ℕ)
    → All IsChar name
    → n ≤ length name
    → copy_name n (name ++ (0 ∷ more)) ≡ take n (slashes name)
unfolding copy_name
copy_name-part zero name more h le = refl
copy_name-part (suc n) [] more h le = absurd (omega arith)
copy_name-part (suc n) (c ∷ cs) more h le =
    let e : (c == 0) ≡ false = eqb_of_ne c 0 h.0 in
    rw e (ap (λ l. to_slash c ∷ l) (copy_name-part n cs more h.1 (omega arith)))

take-past : (q r : List ℕ) (k : ℕ) → take (length q + k) (q ++ r) ≡ q ++ take k r
take-past [] r k = ap (λ n. take n r) (omega arith)
take-past (c ∷ q) r k =
    let e : suc (length q) + k ≡ suc (length q + k) = omega arith in
    rw e (ap (λ l. c ∷ l) (take-past q r k))

none_taken : (q : List ℕ) → take 0 q ≡ []
none_taken [] = refl
none_taken (c ∷ q) = refl

take-take : (n m : ℕ) (q : List ℕ) → n ≤ m → take n (take m q) ≡ take n q
take-take zero zero q h = none_taken (take 0 q) ∙ sym (none_taken q)
take-take zero (suc m) q h = none_taken (take (suc m) q) ∙ sym (none_taken q)
take-take (suc n) zero q h = absurd (omega arith)
take-take (suc n) (suc m) [] h = refl
take-take (suc n) (suc m) (c ∷ q) h = ap (λ l. c ∷ l) (take-take n m q (omega arith))

abbrev nulls : ℕ → List ℕ
nulls k = replicate k 0

take-nulls : (k : ℕ) → take k (nulls (suc k)) ≡ nulls k
take-nulls zero = refl
take-nulls (suc k) = ap (λ l. 0 ∷ l) (take-nulls k)

nulls_snoc : (k : ℕ) → nulls k ++ (0 ∷ []) ≡ nulls (suc k)
nulls_snoc zero = refl
nulls_snoc (suc k) = ap (λ l. 0 ∷ l) (nulls_snoc k)

length-slashes : (name : List ℕ) → length (slashes name) ≡ length name
length-slashes [] = refl
length-slashes (c ∷ cs) = ap suc (length-slashes cs)

-- `filename_buff` holds the first 95 characters of the path, with slashes for its backslashes, and
-- null characters to its end.
pub scf_filename_bufferize_lem :
    (name more : List ℕ)
    → All IsChar name
    → scf_filename_bufferize (name ++ (0 ∷ more))
      ≡ take (pathname_maxlen - 1) (slashes name)
        ++ replicate (pathname_maxlen - min (pathname_maxlen - 1) (length name)) 0
unfolding scf_filename_bufferize
scf_filename_bufferize_lem name more h = elim (split_lt (length name) 96) [
  | inl short ↦ rw (copy_name-whole 96 name more h short) (short_buffer short)
  | inr long ↦ rw (copy_name-part 96 name more h long) (long_buffer long)
]
  where
    q : List ℕ
    q = slashes name

    short_buffer :
        length name < 96
        → take 95 ((q ++ (0 ∷ [])) ++ replicate (96 - length (q ++ (0 ∷ []))) 0) ++ (0 ∷ [])
          ≡ take 95 q ++ replicate (96 - min 95 (length name)) 0
    short_buffer short =
        let k = 95 - length name in
        let l : length q ≡ length name = length-slashes name in
        let fill : 96 - length (q ++ (0 ∷ [])) ≡ k = omega (arith, length-append q (0 ∷ []), l) in
        let size : 95 ≡ length q + k = omega (arith, l) in
        let rest : 96 - min 95 (length name) ≡ suc k = omega arith in
        rw (fill, rest)
          (rw (append_assoc q (0 ∷ []) (replicate k 0)) (
            ap (λ n. take n (q ++ replicate (suc k) 0) ++ (0 ∷ [])) size
            ∙ ap (λ m. m ++ (0 ∷ []))
                (take-past q (replicate (suc k) 0) k ∙ ap (λ r. q ++ r) (take-nulls k))
            ∙ append_assoc q (replicate k 0) (0 ∷ [])
            ∙ ap₂ (λ a b. a ++ b) (sym (take_all 95 q (omega (arith, l)))) (nulls_snoc k)))

    long_buffer :
        96 ≤ length name
        → take 95 (take 96 q ++ replicate (96 - length (take 96 q)) 0) ++ (0 ∷ [])
          ≡ take 95 q ++ replicate (96 - min 95 (length name)) 0
    long_buffer long =
        let l : length q ≡ length name = length-slashes name in
        let none_left : 96 - length (take 96 q) ≡ 0 = omega (arith, length-take 96 q, l) in
        let one : 96 - min 95 (length name) ≡ 1 = omega arith in
        rw (none_left, one)
          (ap (λ m. take 95 m ++ (0 ∷ [])) (append-nil (take 96 q))
            ∙ ap (λ m. m ++ (0 ∷ [])) (take-take 95 96 q (omega arith)))
