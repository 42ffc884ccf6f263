-- ===== src/Copystub/Move.antt =====
-- The stub's copy, forward or backward, is one to a place that may overlap the source.
use ftx.Base.{
  split_lt, split_eq, ℕ, zero, suc, ◌+◌, ◌-◌, ◌^◌, ◌≤◌, ◌<◌, ◌≡◌, ◌≢◌, sym, ap, ◌∙◌, arith, ◌⊎◌,
  inl, inr,
}
use mathlib.Core.Path.{fun_ext}
use ftx.Base.{true, false, ◌&&◌, some, ◌==◌, ltb, leb, if◌then◌else◌}
use ftx.Copystub.{Memory, store, u32, sub32, copy_backward, copy_forward, copy_program}

-- Memory with the `len` bytes at `dst` those that `mem` has at `src`.
unfoldable pub moved : Memory → ℕ → ℕ → ℕ → Memory
moved mem src len dst a = if leb dst a && ltb a (dst + len) then mem (src + (a - dst)) else mem a

moved_none : (mem : Memory) (src dst a : ℕ) → moved mem src 0 dst a ≡ mem a
unfolding moved
moved_none mem src dst a = ground arith

-- One byte copied at the upper end, then the rest below it.
moved_last :
    (mem : Memory) (src k dst a : ℕ)
    → src < dst
    → moved (store mem (dst + k) (mem (src + k))) src k dst a ≡ moved mem src (suc k) dst a
unfolding moved
moved_last mem src k dst a h = elim (split_eq a (dst + k)) [
  | inl e ↦
      let t : mem (src + (a - dst)) ≡ mem (src + k) = ap mem (omega arith) in ground (arith, t)
  | inr ne ↦ ground arith
]

-- One byte copied at the lower end, then the rest above it.
moved_first :
    (mem : Memory) (src k dst a : ℕ)
    → (dst < src) ⊎ (src + suc k ≤ dst)
    → moved (store mem dst (mem src)) (src + 1) k (dst + 1) a ≡ moved mem src (suc k) dst a
unfolding moved
moved_first mem src k dst a h = elim (split_eq a dst) [
  | inl e ↦ let t : mem (src + (a - dst)) ≡ mem src = ap mem (omega arith) in ground (arith, t)
  | inr ne ↦ elim (split_lt a dst) [
    | inl below ↦ ground arith
    | inr above ↦
        let t : src + 1 + (a - (dst + 1)) ≡ src + (a - dst) = omega arith in
        rw t (ground (arith, h))
  ]
]

copy_backward-moved :
    (k fuel : ℕ) (mem : Memory) (src dst : ℕ)
    → k < fuel
    → src < dst
    → dst + k < 2 ^ 32
    → copy_backward fuel mem (sub32 (src + k) 1) (sub32 (dst + k) 1) dst
      ≡ some (moved mem src k dst)
unfolding copy_backward
copy_backward-moved k zero mem src dst h lt fits = absurd (omega arith)
copy_backward-moved zero (suc fuel) mem src dst h lt fits =
    let e : (u32 (sub32 (dst + 0) 1 + 1) == dst) ≡ true = ground arith in
    rw e (ap some (fun_ext (λ a. sym (moved_none mem src dst a))))
copy_backward-moved (suc k) (suc fuel) mem src dst h lt fits =
    let p : sub32 (src + suc k) 1 ≡ src + k = omega arith in
    let q : sub32 (dst + suc k) 1 ≡ dst + k = omega arith in
    let e : (u32 (dst + k + 1) == dst) ≡ false = ground arith in
    rw (p, q, e)
      (copy_backward-moved k fuel (store mem (dst + k) (mem (src + k))) src dst (omega arith) lt
          (omega arith)
        ∙ ap some (fun_ext (λ a. moved_last mem src k dst a lt)))

copy_forward-moved :
    (k fuel : ℕ) (mem : Memory) (src dst : ℕ)
    → k < fuel
    → (dst < src) ⊎ (src + k ≤ dst)
    → src + k < 2 ^ 32
    → dst + k < 2 ^ 32
    → copy_forward fuel mem src dst (dst + k) ≡ some (moved mem src k dst)
unfolding copy_forward
copy_forward-moved k zero mem src dst h apart fits fits' = absurd (omega arith)
copy_forward-moved zero (suc fuel) mem src dst h apart fits fits' =
    let e : (dst == dst + 0) ≡ true = ground arith in
    rw e (ap some (fun_ext (λ a. sym (moved_none mem src dst a))))
copy_forward-moved (suc k) (suc fuel) mem src dst h apart fits fits' =
    let p : u32 (src + 1) ≡ src + 1 = omega arith in
    let q : u32 (dst + 1) ≡ dst + 1 = omega arith in
    let r : dst + suc k ≡ dst + 1 + k = omega arith in
    let e : (dst == dst + suc k) ≡ false = ground arith in
    rw (e, p, q, r)
      (copy_forward-moved k fuel (store mem dst (mem src)) (src + 1) (dst + 1) (omega arith)
          (ground (arith, apart)) (omega arith) (omega arith)
        ∙ ap some (fun_ext (λ a. moved_first mem src k dst a apart)))

moved_same : (mem : Memory) (len at a : ℕ) → moved mem at len at a ≡ mem a
unfolding moved
moved_same mem len at a = elim (split_lt a at) [
  | inl below ↦ ground arith
  | inr above ↦ let e : mem (at + (a - at)) ≡ mem a = ap mem (omega arith) in ground (arith, e)
]

-- The program's bytes arrive at `dst_stt` as they were at `src_stt`, overlap or not, and nothing
-- else changes.
pub copy_program-moved :
    (mem : Memory) (src_stt len dst_stt : ℕ)
    → src_stt + len < 2 ^ 32
    → dst_stt + len < 2 ^ 32
    → copy_program mem src_stt len dst_stt ≡ some (moved mem src_stt len dst_stt)
unfolding copy_program
copy_program-moved mem src_stt len dst_stt fits fits' = elim placed [
  | inl e ↦
      let t : (src_stt == dst_stt) ≡ true = ground arith in
      rw t (
        ap some (
          fun_ext
            (λ a. sym (moved_same mem len src_stt a) ∙ ap (λ d. moved mem src_stt len d a) e)))
  | inr (inl overlap) ↦
      let t : (src_stt == dst_stt) ≡ false = ground arith in
      let c : ltb src_stt dst_stt && ltb dst_stt (u32 (src_stt + len)) ≡ true = ground arith in
      let p : u32 (src_stt + len) ≡ src_stt + len = omega arith in
      let q : u32 (dst_stt + len) ≡ dst_stt + len = omega arith in
      rw (t, c, p, q)
        (copy_backward-moved len (suc len) mem src_stt dst_stt (omega arith) overlap.0 fits')
  | inr (inr apart) ↦
      let t : (src_stt == dst_stt) ≡ false = ground arith in
      let c : ltb src_stt dst_stt && ltb dst_stt (u32 (src_stt + len)) ≡ false = ground arith in
      let q : u32 (dst_stt + len) ≡ dst_stt + len = omega arith in
      rw (t, c, q)
        (copy_forward-moved len (suc len) mem src_stt dst_stt (omega arith) apart.1 fits fits')
]
  where
    placed :
        (src_stt ≡ dst_stt)
        ⊎ (((src_stt < dst_stt) × (dst_stt < src_stt + len))
            ⊎ ((src_stt ≢ dst_stt) × ((dst_stt < src_stt) ⊎ (src_stt + len ≤ dst_stt))))
    placed = ground arith
