-- ===== src/Compress/Tests.antt =====
-- The properties of the compression at a concrete LZF, which packs runs of one byte.
use ftx.Base.{ℕ, suc, ◌+◌, ◌≤◌, ◌<◌, ◌≡◌, refl, sym, ap, ap₂, inl, inr, arith, ◌==◌, ==_iff, leb}
use ftx.Base.{List, [], ◌∷◌, ◌++◌, length, replicate, Bool, true, false, ◌&&◌, if◌then◌else◌}
use ftx.Base.{Bool-cases}
use ftx.Compress.{bytes_at, comp_exec, decomp_exec}
use ftx.Compress.Header.{pointer}
use ftx.Compress.RoundTrip.{decomp_exec-comp_exec, length-comp_exec}

abbrev uniform : ℕ → List ℕ → Bool
uniform b [] = true
uniform b (x ∷ xs) = (x == b) && uniform b xs

abbrev pack : List ℕ → ℕ → List ℕ
pack [] n = []
pack (x ∷ xs) n = if uniform x xs && leb 2 n then x ∷ (suc (length xs) ∷ []) else []

abbrev unpack : List ℕ → ℕ → List ℕ
unpack (x ∷ (k ∷ [])) m = replicate k x
unpack other m = []

and_left : (a b : Bool) → (a && b) ≡ true → a ≡ true
and_left a b h = ground arith

and_right : (a b : Bool) → (a && b) ≡ true → b ≡ true
and_right a b h = ground arith

uniform-replicate : (b : ℕ) (xs : List ℕ) → uniform b xs ≡ true → replicate (length xs) b ≡ xs
uniform-replicate b [] h = refl
uniform-replicate b (x ∷ xs) h =
    let e : x ≡ b = (==_iff x b).0 (and_left _ _ h) in
    ap₂ ◌∷◌ (sym e) (uniform-replicate b xs (and_right _ _ h))

pack_fits : (xs : List ℕ) (n : ℕ) → length (pack xs n) ≤ n
pack_fits [] n = omega arith
pack_fits (x ∷ xs) n = ground arith

unpack-pack :
    (xs : List ℕ) (n m : ℕ) → 0 < length (pack xs n) → length xs ≤ m → unpack (pack xs n) m ≡ xs
unpack-pack [] n m h k = absurd (omega arith)
unpack-pack (x ∷ xs) n m h k = elim (Bool-cases (uniform x xs && leb 2 n)) [
  | inl e ↦ rw e (ap (λ l. x ∷ l) (uniform-replicate x xs (and_left _ _ e)))
  | inr e ↦ absurd (omega (arith, gone e))
]
  where
    gone : uniform x xs && leb 2 n ≡ false → length (pack (x ∷ xs) n) ≡ 0
    gone e = rw e refl

-- Ten bytes 65 in a row.
abbrev run : ℕ → ℕ
run i = 65

decomp_exec-comp_exec_example :
    decomp_exec unpack
      (pointer (comp_exec pack run 10 ++ (99 ∷ [])))
      (length (comp_exec pack run 10))
    ≡ (10, bytes_at run 0 10)
decomp_exec-comp_exec_example =
    decomp_exec-comp_exec pack unpack pack_fits unpack-pack run 10 (omega arith) (99 ∷ [])

length-comp_exec_example : length (comp_exec pack run 10) ≤ 10 + 1
length-comp_exec_example = length-comp_exec pack unpack pack_fits unpack-pack run 10 (omega arith)
