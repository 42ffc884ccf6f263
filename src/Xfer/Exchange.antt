-- ===== src/Xfer/Exchange.antt =====
-- What a call on the device has moved, for the proofs about the functions of src/xfer.cpp that
-- send and receive: the bytes that it has sent and the bytes that it has taken.
use ftx.Base.{ℕ, ◌-◌, ◌≤◌, zero, suc, min, ◌||◌, ◌≡◌, refl, sym, ◌∙◌, arith}
use ftx.Base.{Bool, true, false, List, [], ◌∷◌, ◌++◌, append-nil, append_assoc}
use ftx.Base.{Option, none, some, length, take, drop, length-take, length-append}
use ftx.Base.{take-append-drop, leb, if◌then◌else◌}
use ftx.Xfer.Link.{Answer, failed, moved, Link, Run, value, hang, bind, write_rest}
use ftx.Xfer.Attempt.{Attempt, ◌>>=◌, either_way}
use ftx.Xfer.Remote.{write_all_to_device, write_payload, read_loop, read_exact_from_device}
use ftx.Xfer.Upload.{Accounted, write_rest-Accounted}

abbrev pub Exchange : Link → List ℕ → List ℕ → Link → Type 0
Exchange l out inn l' = (l'.sent ≡ l.sent ++ out) × (l.incoming ≡ inn ++ l'.incoming)

pub Exchange-nothing : (l : Link) → Exchange l [] [] l
Exchange-nothing l = (sym (append-nil l.sent), refl)

pub Exchange-then :
    (l l' l'' : Link) (out out' inn inn' : List ℕ)
    → Exchange l out inn l'
    → Exchange l' out' inn' l''
    → Exchange l (out ++ out') (inn ++ inn') l''
Exchange-then l l' l'' out out' inn inn' (eo, ei) (eo', ei') = (
  eo' ∙ rw eo (append_assoc l.sent out out'),
  ei ∙ rw ei' (sym (append_assoc inn inn' l''.incoming)),
)

pub Exchange-at :
    (l l' : Link) (out out' inn inn' : List ℕ)
    → out ≡ out'
    → inn ≡ inn'
    → Exchange l out inn l'
    → Exchange l out' inn' l'
Exchange-at l l' out out' inn inn' eo ei x = rw (sym eo, sym ei) x

module _ {A : Type 0} where
  -- `Q` holds of whatever the call returns.
  abbrev pub Ensures : (A → Link → Type 0) → Run A → Type 0
  Ensures Q (value a l) = Q a l
  Ensures Q hang = Unit {0}

  -- `Q` holds if the attempt succeeds.
  abbrev pub OnSuccess : (A → Link → Type 0) → Run (Option A) → Type 0
  OnSuccess Q (value (some a) l) = Q a l
  OnSuccess Q (value none l) = Unit {0}
  OnSuccess Q hang = Unit {0}

  pub OnSuccess-if :
      (Q : A → Link → Type 0) (t : Bool) (r q : Run (Option A))
      → (t ≡ true → OnSuccess Q r)
      → (t ≡ false → OnSuccess Q q)
      → OnSuccess Q (if t then r else q)
  OnSuccess-if Q true r q h g = h refl
  OnSuccess-if Q false r q h g = g refl

  pub OnSuccess-weaken :
      (P Q : A → Link → Type 0) (r : Run (Option A))
      → OnSuccess P r
      → ((a : A) (l : Link) → P a l → Q a l)
      → OnSuccess Q r
  OnSuccess-weaken P Q (value (some a) l) h w = w a l h
  OnSuccess-weaken P Q (value none l) h w = tt
  OnSuccess-weaken P Q hang h w = tt

  pub OnSuccess-both :
      (P Q : A → Link → Type 0) (r : Run (Option A))
      → OnSuccess P r
      → OnSuccess Q r
      → OnSuccess (λ a l. P a l × Q a l) r
  OnSuccess-both P Q (value (some a) l) h g = (h, g)
  OnSuccess-both P Q (value none l) h g = tt
  OnSuccess-both P Q hang h g = tt

  pub Ensures-weaken :
      (P Q : A → Link → Type 0) (r : Run A)
      → Ensures P r
      → ((a : A) (l : Link) → P a l → Q a l)
      → Ensures Q r
  Ensures-weaken P Q (value a l) h w = w a l h
  Ensures-weaken P Q hang h w = tt

module _ {A B : Type 0} (P : A → Link → Type 0) (Q : B → Link → Type 0) where
  pub OnSuccess-bind :
      (m : Attempt A) (f : A → Attempt B) (l : Link)
      → OnSuccess P (m l)
      → ((a : A) (l' : Link) → P a l' → OnSuccess Q (f a l'))
      → OnSuccess Q ((m >>= f) l)
  unfolding ◌>>=◌
  OnSuccess-bind m f l h k = go (m l) h
    where
      go :
          (r : Run (Option A))
          → OnSuccess P r
          → OnSuccess Q (bind r λ o l'. elim o [ none ↦ value none l' | some a ↦ f a l' ])
      go (value (some a) l') p = k a l' p
      go (value none l') p = tt
      go hang p = tt

  pub Ensures-either_way :
      (m : Attempt A) (otherwise : B) (f : A → Link → Run B) (l : Link)
      → OnSuccess P (m l)
      → ((l' : Link) → Q otherwise l')
      → ((a : A) (l' : Link) → P a l' → Ensures Q (f a l'))
      → Ensures Q (either_way m otherwise f l)
  unfolding either_way
  Ensures-either_way m otherwise f l h g k = go (m l) h
    where
      go :
          (r : Run (Option A))
          → OnSuccess P r
          → Ensures Q (bind r λ o l'. elim o [ none ↦ value otherwise l' | some a ↦ f a l' ])
      go (value (some a) l') p = k a l' p
      go (value none l') p = g l'
      go hang p = tt

  pub Ensures-bind :
      (r : Run A) (f : A → Link → Run B)
      → Ensures P r
      → ((a : A) (l' : Link) → P a l' → Ensures Q (f a l'))
      → Ensures Q (bind r f)
  Ensures-bind (value a l) f h k = k a l h
  Ensures-bind hang f h k = tt

pub bind_cong :
    {A B : Type 0} (P : A → Link → Type 0) (r : Run A) (f g : A → Link → Run B)
    → Ensures P r
    → ((a : A) (l : Link) → P a l → f a l ≡ g a l)
    → bind r f ≡ bind r g
bind_cong P (value a l) f g h e = e a l h
bind_cong P hang f g h e = refl

-- `WriteAllToDevice` succeeds only if everything is sent.
pub write_all_to_device_lem :
    (bytes : List ℕ) (l : Link)
    → OnSuccess (λ _ l'. Exchange l bytes [] l') (write_all_to_device bytes l)
unfolding write_all_to_device
write_all_to_device_lem bytes l = go (write_rest bytes l) (write_rest-Accounted bytes l)
  where
    go :
        (r : Run (Option (List ℕ)))
        → Accounted l bytes r
        → OnSuccess
            (λ _ l'. Exchange l bytes [] l')
            (bind r λ rest l'. elim rest [
              | none ↦ value none l'
              | some [] ↦ value (some tt) l'
              | some (b ∷ bs) ↦ value none l'
            ])
    go (value (some []) l') (es, ei, _) = (sym (append-nil l'.sent) ∙ es, sym ei)
    go (value (some (b ∷ bs)) l') h = tt
    go (value none l') h = tt
    go hang h = tt

pub write_payload_lem :
    (bytes : List ℕ) (l : Link) → OnSuccess (λ _ l'. Exchange l bytes [] l') (write_payload bytes l)
unfolding write_payload
write_payload_lem [] l = Exchange-nothing l
write_payload_lem (b ∷ bs) l = write_all_to_device_lem (b ∷ bs) l

-- What a read loop adds to the bytes that it has.
abbrev pub Completes : Link → ℕ → List ℕ → List ℕ → Link → Type 0
Completes l left got all l' =
    (new : List ℕ) × (all ≡ got ++ new) × (length new ≡ left) × Exchange l [] new l'

read_loop_lem :
    (answers : List Answer) (left idle max_idle_cycles : ℕ) (got : List ℕ) (l : Link)
    → OnSuccess (Completes l left got) (read_loop answers left idle max_idle_cycles got l)
unfolding read_loop
read_loop_lem answers zero idle most got l = ([], sym (append-nil got), refl, Exchange-nothing l)
read_loop_lem [] (suc left) idle most got l =
    OnSuccess-if (Completes l (suc left) got) l.interrupted _ _ (λ _. tt) (λ _. tt)
read_loop_lem (failed ∷ more) (suc left) idle most got l =
    OnSuccess-if (Completes l (suc left) got) l.interrupted _ _ (λ _. tt) (λ _. tt)
read_loop_lem (moved n raised ∷ more) (suc left) idle most got l =
    OnSuccess-if (Completes l (suc left) got) l.interrupted _ _ (λ _. tt)
      (λ _.
        taken (take k l.incoming) (sym (take-append-drop k l.incoming))
          (omega (arith, length-take k l.incoming))
          (λ left' idle' got' l'. read_loop_lem more left' idle' most got' l'))
  where
    k : ℕ
    k = min n (suc left)

    l' : Link
    l' = record l {
      answers = more;
      incoming = drop k l.incoming;
      interrupted = l.interrupted || raised;
    }

    taken :
        (chunk : List ℕ)
        → l.incoming ≡ chunk ++ l'.incoming
        → length chunk ≤ suc left
        → ((left' idle' : ℕ) (got' : List ℕ) (l' : Link)
            → OnSuccess (Completes l' left' got') (read_loop more left' idle' most got' l'))
        → OnSuccess (Completes l (suc left) got) (elim chunk [
          | [] ↦
              let again = read_loop more (suc left) (suc idle) most got l' in
              if leb most (suc idle) then value none l' else again
          | b ∷ bs ↦ read_loop more (suc left - length (b ∷ bs)) 0 most (got ++ (b ∷ bs)) l'
        ])
    taken [] e h again =
        OnSuccess-if (Completes l (suc left) got) (leb most (suc idle)) _ _ (λ _. tt)
          (λ _.
            OnSuccess-weaken (Completes l' (suc left) got) (Completes l (suc left) got) _
              (again (suc left) (suc idle) got l')
              (λ all l'' (new, ea, el, (es, ei)). (new, ea, el, (es, e ∙ ei))))
    taken (b ∷ bs) e h again =
        OnSuccess-weaken (Completes l' (suc left - length (b ∷ bs)) (got ++ (b ∷ bs)))
          (Completes l (suc left) got) _ (again (suc left - length (b ∷ bs)) 0 (got ++ (b ∷ bs)) l')
          (λ all l'' (new, ea, el, (es, ei)). (
            (b ∷ bs) ++ new,
            ea ∙ append_assoc got (b ∷ bs) new,
            omega (arith, length-append (b ∷ bs) new),
            (es, e ∙ rw ei (sym (append_assoc (b ∷ bs) new l''.incoming))),
          ))

-- `ReadExactFromDevice` succeeds only with all the bytes that it was asked for, which are the next
-- ones that the device sent.
pub read_exact_from_device_lem :
    (size max_idle_cycles : ℕ) (l : Link)
    → OnSuccess
        (λ got l'. (length got ≡ size) × Exchange l [] got l')
        (read_exact_from_device size max_idle_cycles l)
unfolding read_exact_from_device
read_exact_from_device_lem size most l =
    OnSuccess-weaken (Completes l size []) (λ got l'. (length got ≡ size) × Exchange l [] got l') _
      (read_loop_lem l.answers size 0 most [] l) (λ all l' (new, ea, el, x). rw (ea) (el, x))
