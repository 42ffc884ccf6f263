-- ===== src/Xfer/Listing/Loop.antt =====
-- The loop of `DoList` and `DoListStr` of src/xfer.cpp comes to its end.
use ftx.Base.{ℕ, zero, suc, ◌+◌, ◌-◌, ◌*◌, ◌^◌, ◌≤◌, ◌<◌, min, ◌||◌, ◌&&◌, ◌≡◌, refl, ap}
use ftx.Base.{arith, Bool, false, List, [], ◌∷◌, ◌++◌, none, length, take, drop}
use ftx.Base.{leb, ◌==◌, if◌then◌else◌}
use ftx.Xfer.Link.{Answer, failed, moved, Link, value, M, bind}
use ftx.Xfer.Remote.{Reply, patience, as_lines, read_loop, read_exact_from_device, Tried, received}
use ftx.Xfer.Remote.{nothing_came, broken, reply_payload, reply_header, try_read_remote_io_reply}
use ftx.Xfer.Remote.Framing.{IfReceived, IfReceived-if, IfReceived-weaken}
use ftx.Xfer.Exchange.{bind_cong, Exchange, OnSuccess-both, read_exact_from_device_lem}
use ftx.Xfer.Exchange.{OnSuccess, OnSuccess-if, OnSuccess-weaken, Ensures, Ensures-either_way}
use ftx.Xfer.Listing.{go_on, after_reply, list_loop}

abbrev Uses : ℕ → Link → Link → Type 0
Uses n l l' = length l'.answers + n ≤ length l.answers

-- What the loop does with what a call delivers.
read_step-Uses :
    (chunk : List ℕ) (more : List Answer) (left idle most : ℕ) (got : List ℕ) (l l' : Link)
    → length l'.answers + 1 ≤ length l.answers
    → ((left' idle' : ℕ) (got' : List ℕ)
        → OnSuccess (λ _ l''. Uses (min left' 1) l' l'') (read_loop more left' idle' most got' l'))
    → OnSuccess
        (λ _ l''. Uses 1 l l'')
        (elim chunk [
          | [] ↦
              let again = read_loop more (suc left) (suc idle) most got l' in
              if leb most (suc idle) then value none l' else again
          | b ∷ bs ↦ read_loop more (suc left - length (b ∷ bs)) 0 most (got ++ (b ∷ bs)) l'
        ])
read_step-Uses [] more left idle most got l l' h again =
    OnSuccess-if _ (leb most (suc idle)) _ _ (λ _. tt)
      λ _.
        OnSuccess-weaken (λ _ l''. Uses (min (suc left) 1) l' l'') _ _
          (again (suc left) (suc idle) got) λ _ l'' u. omega arith
read_step-Uses (b ∷ bs) more left idle most got l l' h again =
    OnSuccess-weaken (λ _ l''. Uses (min (suc left - length (b ∷ bs)) 1) l' l'') _ _
      (again (suc left - length (b ∷ bs)) 0 (got ++ (b ∷ bs))) λ _ l'' u. omega arith

-- Reading at least one byte takes at least one call.
read_loop-Uses :
    (answers : List Answer) (left idle most : ℕ) (got : List ℕ) (l : Link)
    → length answers ≤ length l.answers
    → OnSuccess (λ _ l'. Uses (min left 1) l l') (read_loop answers left idle most got l)
unfolding read_loop
read_loop-Uses answers zero idle most got l h = omega arith
read_loop-Uses [] (suc left) idle most got l h =
    OnSuccess-if _ l.interrupted _ _ (λ _. tt) (λ _. tt)
read_loop-Uses (failed ∷ more) (suc left) idle most got l h =
    OnSuccess-if _ l.interrupted _ _ (λ _. tt) (λ _. tt)
read_loop-Uses (moved n raised ∷ more) (suc left) idle most got l h =
    let l' : Link = record l {
      answers = more;
      incoming = drop (min n (suc left)) l.incoming;
      interrupted = l.interrupted || raised;
    } in
    OnSuccess-if (λ _ l''. Uses (min (suc left) 1) l l'') l.interrupted _ _ (λ _. tt)
      λ _.
        OnSuccess-weaken (λ _ l''. Uses 1 l l'') _ _
          (read_step-Uses (take (min n (suc left)) l.incoming) more left idle most got l l'
            (omega arith)
            λ left' idle' got'. read_loop-Uses more left' idle' most got' l' (omega arith))
          λ _ l'' u. omega arith

read_exact_from_device-Uses :
    (size most : ℕ) (l : Link)
    → OnSuccess
        (λ got l'. (length got ≡ size) × Uses (min size 1) l l')
        (read_exact_from_device size most l)
unfolding read_exact_from_device
read_exact_from_device-Uses size most l =
    OnSuccess-weaken
      (λ got l'. ((length got ≡ size) × Exchange l [] got l') × Uses (min size 1) l l') _ _
      (OnSuccess-both (λ got l'. (length got ≡ size) × Exchange l [] got l')
        (λ _ l'. Uses (min size 1) l l') _ (read_exact_from_device_lem size most l)
        (read_loop-Uses l.answers size 0 most [] l (omega arith)))
      λ got l' ((e, x), u). (e, u)

reply_payload-Uses :
    (status size : ℕ) (l : Link)
    → Ensures (IfReceived λ _ l'. Uses 0 l l') (reply_payload status size l)
unfolding reply_payload
reply_payload-Uses status zero l = omega arith
reply_payload-Uses status (suc size) l =
    Ensures-either_way (λ got l'. (length got ≡ suc size) × Uses (min (suc size) 1) l l') _
      (read_exact_from_device (suc size) patience) broken
      (λ bytes. value (received (record { status = status; payload = bytes }))) l
      (read_exact_from_device-Uses (suc size) patience l) (λ _. tt) λ got l' (e, u). omega arith

reply_header-Uses :
    (bytes : List ℕ) (l : Link)
    → length bytes ≡ 7
    → Ensures (IfReceived λ _ l'. Uses 0 l l') (reply_header bytes l)
unfolding reply_header
reply_header-Uses (a ∷ b ∷ c ∷ d ∷ status ∷ hi ∷ lo ∷ []) l h =
    IfReceived-if (λ _ l'. Uses 0 l l') ((a == 83) && ((b == 82) && ((c == 76) && (d == 49))))
      (reply_payload status (hi * 2 ^ 8 + lo) l) l
      λ _. reply_payload-Uses status (hi * 2 ^ 8 + lo) l
reply_header-Uses bytes l h = absurd (omega arith)

try_read_remote_io_reply-Uses :
    (most : ℕ) (l : Link)
    → Ensures (IfReceived λ _ l'. Uses 1 l l') (try_read_remote_io_reply most l)
unfolding try_read_remote_io_reply
try_read_remote_io_reply-Uses most l =
    Ensures-either_way (λ got l'. (length got ≡ 7) × Uses (min 7 1) l l') _
      (read_exact_from_device 7 most) nothing_came reply_header l
      (read_exact_from_device-Uses 7 most l) (λ _. tt)
      λ got l' (e, u).
        IfReceived-weaken (λ _ l''. Uses 0 l' l'') (λ _ l''. Uses 1 l l'') _
          (reply_header-Uses got l' e) λ r l'' v. omega arith

module _ (P : Reply → Link → Type 0) (f g : Reply → M (List ℕ × Bool)) (listing : List ℕ) where
  go_on_cong :
      ((reply : Reply) (l : Link) → P reply l → f reply l ≡ g reply l)
      → (tried : Tried) (l : Link) → IfReceived P tried l
      → go_on f listing tried l ≡ go_on g listing tried l
  unfolding go_on
  go_on_cong e (received reply) l h = e reply l h
  go_on_cong e nothing_came l h = refl
  go_on_cong e broken l h = refl

  after_reply_cong :
      (payload : List ℕ) (done : M (List ℕ × Bool)) (l : Link)
      → Ensures (IfReceived P) (try_read_remote_io_reply 200 l)
      → ((reply : Reply) (l : Link) → P reply l → f reply l ≡ g reply l)
      → after_reply payload done (λ l. bind (try_read_remote_io_reply 200 l) (go_on f listing)) l
        ≡ after_reply payload done (λ l. bind (try_read_remote_io_reply 200 l) (go_on g listing)) l
  unfolding after_reply
  after_reply_cong [] done l h e = refl
  after_reply_cong (p ∷ ps) done l h e =
      bind_cong (IfReceived P) (try_read_remote_io_reply 200 l) (go_on f listing) (go_on g listing)
        h (go_on_cong e)

-- The fuel of the listing's loop is enough: with more fuel than the driver has answers, more fuel
-- still gives the same result, so that the bound of the model never ends the loop.
pub list_loop_enough :
    (fuel fuel' : ℕ) (reply : Reply) (listing : List ℕ) (l : Link)
    → length l.answers < fuel
    → length l.answers < fuel'
    → list_loop fuel reply listing l ≡ list_loop fuel' reply listing l
unfolding list_loop
list_loop_enough zero fuel' reply listing l h h' = absurd (omega arith)
list_loop_enough (suc fuel) zero reply listing l h h' = absurd (omega arith)
list_loop_enough (suc fuel) (suc fuel') reply listing l h h' =
    ap
      (λ rest.
        if reply.status == 0 then rest else value (listing ++ as_lines reply.payload, false) l)
      (after_reply_cong (λ _ l'. Uses 1 l l')
        (λ next. list_loop fuel next (listing ++ as_lines reply.payload))
        (λ next. list_loop fuel' next (listing ++ as_lines reply.payload))
        (listing ++ as_lines reply.payload) reply.payload _ l (try_read_remote_io_reply-Uses 200 l)
        λ next l' u.
          list_loop_enough fuel fuel' next (listing ++ as_lines reply.payload) l' (omega arith)
            (omega arith))
