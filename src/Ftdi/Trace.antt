-- ===== src/Ftdi/Trace.antt =====
-- `trace_rsp_stream` of src/ftdi_gdb.cpp over a stream that arrives in pieces.
use ftx.Base.{ℕ, zero, suc, ◌≤◌, ◌≡◌, inl, inr, refl, sym, ap, ◌∙◌, arith, Bool, true, false, ◌||◌}
use ftx.Base.{List, [], ◌∷◌, ◌++◌, append_assoc, Option, none, some, length, ◌==◌, if◌then◌else◌}
use ftx.Base.{Bool-cases, Option-cases}
use ftx.Ftdi.Proxy.{checksum_text, prepend, packet, trace_loop, trace_rsp_stream}

prepend-some :
    (c : ℕ) (o : Option (List ℕ)) (text : List ℕ)
    → prepend c o ≡ some text
    → (rest : List ℕ) × (o ≡ some rest) × (c ∷ rest ≡ text)
unfolding prepend
prepend-some c none text h = absurd (cc)
prepend-some c (some rest) text h = (rest, refl, some_inj (c ∷ rest) text h)
  where
    some_inj : (xs ys : List ℕ) → ◌≡◌ {A = Option (List ℕ)} (some xs) (some ys) → xs ≡ ys
    some_inj xs ys e = cc

three :
    (a b c : ℕ) (text : List ℕ) {n : ℕ}
    → ◌≡◌ {A = Option (List ℕ)} (some (a ∷ b ∷ c ∷ [])) (some text)
    → 3 ≤ n
    → length text ≤ n
three a b c text e h = let et : (a ∷ b ∷ c ∷ []) ≡ text = cc in rw (sym et) h

checksum_text-append :
    (cs more text : List ℕ)
    → checksum_text cs ≡ some text
    → (checksum_text (cs ++ more) ≡ some text) × (length text ≤ suc (length cs))
unfolding checksum_text
checksum_text-append [] more text h = absurd (cc)
checksum_text-append (x ∷ []) more text h = absurd (cc)
checksum_text-append (x ∷ y ∷ cs) more text h = (h, three 35 x y text h (omega arith))

packet_cons :
    (t : Bool) (c : ℕ) (cs more text : List ℕ)
    → ((text' : List ℕ)
        → packet cs ≡ some text'
        → (packet (cs ++ more) ≡ some text') × (length text' ≤ length cs))
    → (if t then checksum_text cs else prepend c (packet cs)) ≡ some text
    → ((if t then checksum_text (cs ++ more) else prepend c (packet (cs ++ more))) ≡ some text)
      × (length text ≤ suc (length cs))
unfolding prepend
packet_cons true c cs more text again h = checksum_text-append cs more text h
packet_cons false c cs more text again h =
    let (rest, e, et) = prepend-some c (packet cs) text h in
    let (e', le) = again rest e in (rw (e', et) refl, rw (sym et) (omega arith))

-- A packet that is whole stays the same when more arrives.
packet-append :
    (cs more text : List ℕ)
    → packet cs ≡ some text
    → (packet (cs ++ more) ≡ some text) × (length text ≤ length cs)
unfolding packet prepend checksum_text
packet-append [] more text h = absurd (cc)
packet-append (c ∷ cs) more text h = packet_cons (c == 35) c cs more text (packet-append cs more) h

-- What a buffer with more behind it gives.
abbrev followed : List (List ℕ) × List ℕ → List ℕ → List (List ℕ) × List ℕ
followed (lines, rest) more =
    let (later, rest') = trace_loop 0 (rest ++ more) in (lines ++ later, rest')

abbrev with_line : List ℕ → List (List ℕ) × List ℕ → List (List ℕ) × List ℕ
with_line line (lines, rest) = (line ∷ lines, rest)

trace_loop-append :
    (skip : ℕ) (cs more : List ℕ)
    → skip ≤ length cs
    → trace_loop skip (cs ++ more) ≡ followed (trace_loop skip cs) more
unfolding trace_loop
trace_loop-append zero [] more h = refl
trace_loop-append (suc skip) [] more h = absurd (omega arith)
trace_loop-append (suc skip) (c ∷ cs) more h = trace_loop-append skip cs more (omega arith)
trace_loop-append zero (c ∷ cs) more h = elim (Bool-cases (c == 36)) [
  | inl e ↦ elim (Option-cases (packet cs)) [
    | inl n ↦ rw (e, n) (rw e refl)
    | inr (text, n) ↦
        let (n', le) = packet-append cs more text n in
        rw (e, n, n') (ap (with_line (c ∷ text)) (trace_loop-append (length text) cs more le))
  ]
  | inr e ↦ elim (Bool-cases ((c == 43) || (c == 45))) [
    | inl d ↦ rw (e, d) (ap (with_line (c ∷ [])) (trace_loop-append 0 cs more (omega arith)))
    | inr d ↦ rw (e, d) (trace_loop-append 0 cs more (omega arith))
  ]
]

-- The trace does not depend on where the network splits the stream: of two pieces, one after the
-- other, it prints the lines that it prints of both at once, and the same stays in the buffer,
-- whatever was there before.
pub trace_rsp_stream-append :
    (carry first second : List ℕ) (verbose : Bool)
    → trace_rsp_stream carry (first ++ second) verbose ≡ (
      (trace_rsp_stream carry first verbose).0
          ++ (trace_rsp_stream (trace_rsp_stream carry first verbose).1 second verbose).0,
      (trace_rsp_stream (trace_rsp_stream carry first verbose).1 second verbose).1,
    )
unfolding trace_rsp_stream
trace_rsp_stream-append carry first second false = refl
trace_rsp_stream-append carry first second true =
    ap (trace_loop 0) (sym (append_assoc carry first second))
    ∙ trace_loop-append 0 (carry ++ first) second (omega arith)
