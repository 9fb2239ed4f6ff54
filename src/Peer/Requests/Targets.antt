-- ===== src/Peer/Requests/Targets.antt =====
-- To whom make_request sends, and what.
use dag_blockchain.Prelude.{
  Bool, Bool-cases, Bytes, List, [], ap, append-nil, append_assoc, ap₂, arith, beq_refl, drop,
  drop-append, drop-length, false, if◌then◌else◌, inl, inr, length, length-append, length-take,
  le→leb, map, nat_eq, none, refl, replicate, some, suc, sym, take, take-length, true, zero, ℕ,
  ◌++◌, ◌+◌, ◌<◌, ◌==◌, ◌||◌, ◌∙◌, ◌∷◌, ◌≡◌, ◌≤◌,
}
use dag_blockchain.Bytes.Words.{be64, length-be64}
use dag_blockchain.Peer.Missing.{enqueue_send}
use dag_blockchain.Bytes.Buffer.{memcpy}
use dag_blockchain.Containers.Set.{contains}
use dag_blockchain.Network.Message.{hex_hash, prefix}
use dag_blockchain.Network.Message.Kinds.{request_bytes}
use dag_blockchain.Network.Transfer.{copy-front}
use dag_blockchain.Network.Outcome.{returns, undefined}
use dag_blockchain.Peer.{Peer}
use dag_blockchain.Peer.Requests.{request_message, ask, request_head, make_request}

-- The first sockets, and the owner's if it is none of them.
abbrev pub targets : ℕ → List ℕ → ℕ → List ℕ
targets count sockets owner =
    if contains owner (take count sockets)
    then take count sockets
    else take count sockets ++ owner ∷ []

abbrev pub sends_to : List ℕ → Bytes → List (ℕ × Bytes)
sends_to sockets message = map (λ socket. (socket, message)) sockets

sends_to-snoc :
    (sockets : List ℕ) (s : ℕ) (message : Bytes)
    → sends_to (sockets ++ s ∷ []) message ≡ sends_to sockets message ++ (s, message) ∷ []
sends_to-snoc [] s message = refl
sends_to-snoc (t ∷ sockets) s message = ap (λ r. (t, message) ∷ r) (sends_to-snoc sockets s message)

contains-snoc : (s : ℕ) (sockets : List ℕ) → contains s (sockets ++ s ∷ []) ≡ true
unfolding contains
contains-snoc s [] = ground (arith, beq_refl s)
contains-snoc s (t ∷ sockets) = ground (arith, contains-snoc s sockets)

or_rotate : (a b c : Bool) → (a || (b || c)) ≡ ((b || a) || c)
or_rotate a b c = ground arith

ask-take :
    (count : ℕ) (sockets : List ℕ) (message : Bytes) (owner : ℕ) (sent : Bool) (p : Peer)
    → count ≤ length sockets
    → ask count sockets message owner sent p
      ≡ some (
        contains owner (take count sockets) || sent,
        record p { tasks = p.tasks ++ sends_to (take count sockets) message },
      )
unfolding ask contains
ask-take zero sockets message owner sent p h =
    ap (λ t. some (sent, record p { tasks = t })) (sym (append-nil p.tasks))
ask-take (suc count) [] message owner sent p h = absurd (omega arith)
ask-take (suc count) (s ∷ sockets) message owner sent p h =
    ask-take count sockets message owner (s == owner || sent) (enqueue_send s message p)
      (omega arith)
    ∙ ap₂ (λ b t. some (b, record p { tasks = t }))
        (or_rotate (contains owner (take count sockets)) (s == owner) sent)
        (append_assoc p.tasks ((s, message) ∷ []) (sends_to (take count sockets) message))

ask-none :
    (count : ℕ) (sockets : List ℕ) (message : Bytes) (owner : ℕ) (sent : Bool) (p : Peer)
    → length sockets < count
    → ask count sockets message owner sent p ≡ none
unfolding ask
ask-none zero sockets message owner sent p h = absurd (omega arith)
ask-none (suc count) [] message owner sent p h = refl
ask-none (suc count) (s ∷ sockets) message owner sent p h =
    ask-none count sockets message owner (s == owner || sent) _ (omega arith)

-- A copy over a part of the buffer.
memcpy-over :
    (front middle back source : Bytes) (off : ℕ)
    → off ≡ length front
    → length middle ≡ length source
    → memcpy (front ++ (middle ++ back)) off source ≡ some ((front ++ source) ++ back)
unfolding memcpy
memcpy-over front middle back source off here same =
    let total : length (front ++ (middle ++ back)) ≡ length front + (length middle + length back) =
      omega (arith, length-append front (middle ++ back), length-append middle back) in
    let after : drop (off + length source) (front ++ (middle ++ back)) ≡ back =
      drop-append front (middle ++ back) (off + length source) (length source) (omega (arith, here))
      ∙ drop-length middle back (length source) (sym same) in
    rw
      (
        le→leb (off + length source) (length (front ++ (middle ++ back)))
            (omega (arith, total, here, same)),
        take-length front (middle ++ back) off here,
        after,
      )
      refl

request_message-eq :
    (hash : Bytes) (id : ℕ)
    → length hash ≡ hex_hash
    → request_message hash id ≡ some (request_bytes hash id)
unfolding request_message request_head
request_message-eq hash id h =
    let size : length (request_bytes hash id) ≡ 73 =
      omega (arith, h, length-append hash (be64 id), length-be64 id) in
    let head : memcpy (replicate 75 0) 0 (prefix ∷ []) ≡ some (prefix ∷ replicate 74 0) =
      memcpy-over [] (0 ∷ []) (replicate 74 0) (prefix ∷ []) 0 refl refl in
    let hashed : memcpy (prefix ∷ replicate 74 0) 1 hash
        ≡ some ((prefix ∷ hash) ++ replicate 10 0) =
      memcpy-over (prefix ∷ []) (replicate 64 0) (replicate 10 0) hash 1 refl (sym h) in
    let signed : memcpy ((prefix ∷ hash) ++ replicate 10 0) (length hash + 1) (be64 id)
        ≡ some (((prefix ∷ hash) ++ be64 id) ++ (0 ∷ 0 ∷ [])) =
      memcpy-over (prefix ∷ hash) (replicate 8 0) (0 ∷ 0 ∷ []) (be64 id) (length hash + 1)
        (omega arith) (sym (length-be64 id)) in
    rw (request_message, request_head, head, hashed, signed)
      (copy-front (request_bytes hash id) (0 ∷ 0 ∷ []) (length hash + 8 + 1)
        (omega (arith, size, h)))

-- For a hash of 64 bytes and more than `byzantines` sockets: the request is counted, and goes to
-- the first sockets and to that of the owner, so to the owner and to at least one peer more than
-- may be byzantine.
pub make_request_lem :
    (hash : Bytes) (owner : ℕ) (sockets : List ℕ) (p : Peer)
    → length hash ≡ hex_hash
    → p.byzantines + 1 ≤ length sockets
    → (make_request hash owner sockets p
        ≡ returns (record p {
          requests_asked = p.requests_asked + 1;
          tasks =
              p.tasks
              ++ sends_to (targets (p.byzantines + 1) sockets owner) (request_bytes hash p.id);
        }))
      × (contains owner (targets (p.byzantines + 1) sockets owner) ≡ true)
      × (p.byzantines + 1 ≤ length (targets (p.byzantines + 1) sockets owner))
unfolding make_request
make_request_lem hash owner sockets p size enough =
    let first = take (p.byzantines + 1) sockets in
    let asked =
      ask-take (p.byzantines + 1) sockets (request_bytes hash p.id) owner false
        (record p { requests_asked = p.requests_asked + 1 }) enough in
    let many : length first ≡ p.byzantines + 1 = length-take (p.byzantines + 1) sockets enough in
    elim (Bool-cases (contains owner first)) [
      | inl among ↦
          rw (request_message-eq hash p.id size, asked, among) (refl, among, omega (arith, many))
      | inr apart ↦
          rw (request_message-eq hash p.id size, asked, apart)
            (
              ap (λ t. returns (record p { requests_asked = p.requests_asked + 1; tasks = t }))
                  (append_assoc p.tasks (sends_to first (request_bytes hash p.id))
                      ((owner, request_bytes hash p.id) ∷ [])
                    ∙ ap (λ t. p.tasks ++ t)
                        (sym (sends_to-snoc first owner (request_bytes hash p.id)))),
              contains-snoc owner first,
              omega (arith, many, length-append first (owner ∷ [])),
            )
    ]

-- For a hash of 64 bytes and no more sockets than `byzantines`, the loop reads outside of the
-- vector of sockets.
pub make_request_undefined :
    (hash : Bytes) (owner : ℕ) (sockets : List ℕ) (p : Peer)
    → length hash ≡ hex_hash
    → length sockets < p.byzantines + 1
    → make_request hash owner sockets p ≡ undefined
unfolding make_request
make_request_undefined hash owner sockets p size few =
    rw
      (
        request_message-eq hash p.id size,
        ask-none (p.byzantines + 1) sockets (request_bytes hash p.id) owner false _ few,
      )
      refl
