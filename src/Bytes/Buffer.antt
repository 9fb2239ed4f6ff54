-- ===== src/Bytes/Buffer.antt =====
-- `memset`, `memcpy` and `assign` on a `char` array: an access outside the array is `none`.
use dag_blockchain.Prelude.{
  Bytes, List, Option, [], ap, append_assoc, arith, concat, drop, drop-append, drop-replicate,
  if◌then◌else◌, leb, length, length-append, length-replicate, le→leb, lt→not_leb, mod-eq_of_lt,
  none, refl, replicate, some, sym, take, take-length, ℕ, ◌%◌, ◌++◌, ◌+◌, ◌-◌, ◌<◌, ◌>>=◌, ◌^◌, ◌∙◌,
  ◌∷◌, ◌≡◌, ◌≤◌,
}

-- memcpy(buffer + off, source, n) for the n bytes of `source`.
unfoldable pub memcpy : Bytes → ℕ → Bytes → Option Bytes
memcpy buffer off source =
    if leb (off + length source) (length buffer)
    then some (take off buffer ++ source ++ drop (off + length source) buffer)
    else none

-- The n bytes from buffer + off, as `memcpy` out of the array and `assign` take them.
unfoldable pub read : Bytes → ℕ → ℕ → Option Bytes
read buffer off n = if leb (off + n) (length buffer) then some (take n (drop off buffer)) else none

-- A buffer with the `uint32_t` count of the bytes written so far.
abbrev pub Cursor : Type 0
Cursor = Bytes × ℕ

-- memcpy at the count, which then grows by what was copied.
unfoldable pub write : Bytes → Cursor → Option Cursor
unfolding memcpy
write source (buffer, used) = do
  buffer' ← memcpy buffer used source
  some (buffer', (used + length source) % 2 ^ 32)

-- A buffer that was cleared, and written from its start.
abbrev pub cursor : Bytes → ℕ → Cursor
cursor written room = (written ++ replicate room 0, length written)

pub length-cursor :
    (written : Bytes) (room : ℕ) → length (cursor written room).0 ≡ length written + room
length-cursor written room =
    length-append written (replicate room 0)
    ∙ ap (λ n. length written + n) (length-replicate room 0)

-- A write that fits goes behind what was written before.
pub write-cursor :
    (source written : Bytes) (room : ℕ)
    → length source ≤ room
    → length written + room < 2 ^ 32
    → write source (cursor written room) ≡ some (cursor (written ++ source) (room - length source))
unfolding write
write-cursor source written room fits small = rw (
  le→leb (length written + length source) (length (cursor written room).0)
      (omega (arith, length-cursor written room)),
  take-length written (replicate room 0) (length written) refl,
  drop-append written (replicate room 0) (length written + length source) (length source) refl,
  drop-replicate {A = ℕ} (length source) room 0 fits,
  mod-eq_of_lt {n = length written + length source} {m = 2 ^ 32} (omega arith),
  append_assoc,
  length-append written source,
)

pub write-none :
    (source buffer : Bytes) (used : ℕ)
    → length buffer < used + length source
    → write source (buffer, used) ≡ none
unfolding write
write-none source buffer used h = rw (lt→not_leb (used + length source) (length buffer) h)

-- A write that does not fit is undefined.
pub write-cursor-none :
    (source written : Bytes) (room : ℕ)
    → room < length source
    → write source (cursor written room) ≡ none
unfolding write
write-cursor-none source written room big = rw (
    lt→not_leb (length written + length source) (length (cursor written room).0)
      (omega (arith, length-cursor written room)))

-- Bytes in front of the part that is read do not matter.
pub read-skip :
    (before rest : Bytes) (off k n : ℕ)
    → off ≡ length before + k
    → read (before ++ rest) off n ≡ read rest k n
unfolding read
read-skip before rest off k n e =
    rw (drop-append before rest off k e) (ground (arith, length-append before rest))

-- Nor do bytes behind it.
pub read-prefix :
    (bytes after : Bytes) (n : ℕ) → n ≡ length bytes → read (bytes ++ after) 0 n ≡ some bytes
unfolding read
read-prefix bytes after n e = rw (
  le→leb (0 + n) (length (bytes ++ after)) (omega (arith, length-append bytes after)),
  take-length bytes after n e,
)

pub read-none : (buffer : Bytes) (off n : ℕ) → length buffer < off + n → read buffer off n ≡ none
unfolding read
read-none buffer off n h = rw (lt→not_leb (off + n) (length buffer) h)

-- The parts of a buffer one behind the other, and what follows them.
abbrev pub after : List Bytes → Bytes → Bytes
after [] rest = rest
after (part ∷ parts) rest = part ++ after parts rest

abbrev pub total : List Bytes → ℕ
total [] = 0
total (part ∷ parts) = length part + total parts

pub read-after :
    (parts : List Bytes) (bytes rest : Bytes) (off n : ℕ)
    → off ≡ total parts
    → n ≡ length bytes
    → read (after parts (bytes ++ rest)) off n ≡ some bytes
read-after [] bytes rest off n e h =
    ap (λ k. read (bytes ++ rest) k n) e ∙ read-prefix bytes rest n h
read-after (part ∷ parts) bytes rest off n e h =
    read-skip part (after parts (bytes ++ rest)) off (total parts) n e
    ∙ read-after parts bytes rest (total parts) n refl h

pub after-concat : (parts : List Bytes) (rest : Bytes) → after parts rest ≡ concat parts ++ rest
after-concat [] rest = refl
after-concat (part ∷ parts) rest =
    ap (λ b. part ++ b) (after-concat parts rest) ∙ sym (append_assoc part (concat parts) rest)

pub length-concat : (parts : List Bytes) → length (concat parts) ≡ total parts
length-concat [] = refl
length-concat (part ∷ parts) = omega (arith, length-append part (concat parts), length-concat parts)
