-- ===== src/Network/Send/Delivery.antt =====
-- What c_sendn of networking.cpp leaves on the connection.
use dag_blockchain.Prelude.{
  Bytes, List, [], ap, append-nil, arith, inl, inr, length, ltb, lt→ltb, lt→not_leb, none, refl,
  some, take, take-drop, take_all, true, ℕ, ◌%◌, ◌+◌, ◌-◌, ◌<◌, ◌^◌, ◌∙◌, ◌∷◌, ◌≡◌, ◌≤◌, ◌⊎◌,
}
use dag_blockchain.Network.Outcome.{returns}
use dag_blockchain.Network.Send.{Answer, send_loop, left_after, c_sendn}

-- Answers that take the bytes that are left, some at a time, and no error before all are taken.
abbrev pub Accepts : ℕ → List Answer → Type 0
Accepts left [] = left ≡ 0
Accepts left (none ∷ answers) = left ≡ 0
Accepts left (some n ∷ answers) = (left ≡ 0) ⊎ ((0 < n) × (n ≤ left) × Accepts (left - n) answers)

-- Some answers that take bytes, and then an error while bytes are left.
abbrev pub Fails : ℕ → List Answer → Type 0
Fails left [] = ⊥
Fails left (none ∷ answers) = 0 < left
Fails left (some n ∷ answers) = (0 < n) × (n < left) × Fails (left - n) answers

-- The bytes that were taken before the error.
abbrev pub taken_before_error : List Answer → ℕ
taken_before_error [] = 0
taken_before_error (none ∷ answers) = 0
taken_before_error (some n ∷ answers) = n + taken_before_error answers

loop_ends :
    (answers : List Answer) (buf got : Bytes) (off left : ℕ)
    → left ≡ 0
    → send_loop answers buf off left got ≡ returns got
unfolding send_loop
loop_ends [] buf got off left e = rw e refl
loop_ends (answer ∷ answers) buf got off left e = rw e refl

loop_takes :
    (n : ℕ) (answers : List Answer) (buf : Bytes) (off left : ℕ)
    → off + left ≡ length buf
    → length buf < 2 ^ 63
    → 0 < n
    → n ≤ left
    → send_loop (some n ∷ answers) buf off left (take off buf)
      ≡ send_loop answers buf (off + n) (left - n) (take (off + n) buf)
unfolding send_loop
loop_takes n answers buf off left e small p q =
    let some_left : ltb 0 left ≡ true = lt→ltb 0 left (omega arith) in
    let off' : (off + n) % 2 ^ 64 ≡ off + n = omega arith in
    let left' : left_after (some n) left ≡ left - n = ground arith in
    rw (some_left, off', left', take-drop off n buf) refl

all_taken :
    (answers : List Answer) (buf : Bytes) (off left : ℕ)
    → off + left ≡ length buf
    → left ≡ 0
    → send_loop answers buf off left (take off buf) ≡ returns buf
all_taken answers buf off left e z =
    loop_ends answers buf (take off buf) off left z ∙ ap returns (take_all buf off (omega arith))

send_loop-delivers :
    (answers : List Answer) (buf : Bytes) (off left : ℕ)
    → off + left ≡ length buf
    → length buf < 2 ^ 63
    → Accepts left answers
    → send_loop answers buf off left (take off buf) ≡ returns buf
send_loop-delivers [] buf off left e small a = all_taken [] buf off left e a
send_loop-delivers (none ∷ answers) buf off left e small a = all_taken _ buf off left e a
send_loop-delivers (some n ∷ answers) buf off left e small (inl a) = all_taken _ buf off left e a
send_loop-delivers (some n ∷ answers) buf off left e small (inr (p, q, a)) =
    loop_takes n answers buf off left e small p q
    ∙ send_loop-delivers answers buf (off + n) (left - n) (omega arith) small a

-- A message below 2 ^ 63 bytes whose draw is above 4 arrives whole on a connection that takes it
-- bit by bit.
pub c_sendn-delivers :
    (probability : ℕ) (answers : List Answer) (buf : Bytes)
    → 4 < probability
    → length buf < 2 ^ 63
    → Accepts (length buf) answers
    → c_sendn probability answers buf ≡ returns buf
unfolding c_sendn
c_sendn-delivers probability answers buf h small a =
    rw (lt→not_leb probability 4 h)
      (send_loop-delivers answers buf 0 (length buf) (omega arith) small a)

send_loop-error :
    (answers : List Answer) (buf : Bytes) (off left : ℕ)
    → off + left ≡ length buf
    → length buf < 2 ^ 63
    → Fails left answers
    → send_loop answers buf off left (take off buf)
      ≡ returns (take (off + taken_before_error answers) buf)
unfolding send_loop
send_loop-error [] buf off left e small f = absurd f
send_loop-error (none ∷ answers) buf off left e small f =
    let k : off ≡ off + 0 = omega arith in
    let some_left : ltb 0 left ≡ true = lt→ltb 0 left f in
    let none_left : left_after none left ≡ 0 = ground arith in
    rw (some_left, none_left)
      (loop_ends answers buf _ _ 0 refl
        ∙ ap returns (append-nil (take off buf) ∙ ap (λ j. take j buf) k))
send_loop-error (some n ∷ answers) buf off left e small (p, q, f) =
    let sum : off + n + taken_before_error answers ≡ off + (n + taken_before_error answers) =
      omega arith in
    loop_takes n answers buf off left e small p (omega arith)
    ∙ send_loop-error answers buf (off + n) (left - n) (omega arith) small f
    ∙ ap (λ k. returns (take k buf)) sum

-- For a message below 2 ^ 63 bytes whose draw is above 4: if the connection takes some of it and
-- then answers with an error while bytes are left, the call returns with the part sent that was
-- taken before, and the process does not end.
pub c_sendn-error :
    (probability : ℕ) (answers : List Answer) (buf : Bytes)
    → 4 < probability
    → length buf < 2 ^ 63
    → Fails (length buf) answers
    → c_sendn probability answers buf ≡ returns (take (taken_before_error answers) buf)
unfolding c_sendn
c_sendn-error probability answers buf h small f =
    let sum : 0 + taken_before_error answers ≡ taken_before_error answers = omega arith in
    rw (lt→not_leb probability 4 h) (
      send_loop-error answers buf 0 (length buf) (omega arith) small f
      ∙ ap (λ k. returns (take k buf)) sum)
