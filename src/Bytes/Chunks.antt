-- ===== src/Bytes/Chunks.antt =====
-- A row of writes into one cleared buffer.
use dag_blockchain.Prelude.{
  >>=_assoc, Bool-cases, Bytes, List, Option, [], ap, append-nil, append_assoc, ap₂, arith, concat,
  fun_ext, if◌then◌else◌, inl, inr, leb, leb→le, length, length-append, le→leb, lt→not_leb, none,
  refl, some, sym, ℕ, ◌++◌, ◌+◌, ◌-◌, ◌<◌, ◌>>=◌, ◌^◌, ◌∙◌, ◌∷◌, ◌≡◌, ◌≤◌,
}
use dag_blockchain.Bytes.Buffer.{Cursor, cursor, write, write-cursor, write-cursor-none}

unfoldable pub write_all : List Bytes → Cursor → Option Cursor
write_all [] c = some c
write_all (chunk ∷ chunks) c = write chunk c >>= write_all chunks

pub write_all-append :
    (xs ys : List Bytes) (c : Cursor) → write_all (xs ++ ys) c ≡ (write_all xs c >>= write_all ys)
unfolding write_all
write_all-append [] ys c = refl
write_all-append (x ∷ xs) ys c =
    ap (λ k. write x c >>= k) (fun_ext (write_all-append xs ys))
    ∙ sym (>>=_assoc (write x c) (write_all xs) (write_all ys))

-- What a row of writes leaves, if there is room for all of it.
abbrev pub filled : Bytes → Bytes → ℕ → Option Cursor
filled written bytes room =
    if leb (length bytes) room then some (cursor (written ++ bytes) (room - length bytes)) else none

pub filled_fits :
    (written bytes : Bytes) (room : ℕ)
    → length bytes ≤ room
    → filled written bytes room ≡ some (cursor (written ++ bytes) (room - length bytes))
filled_fits written bytes room h = rw (le→leb (length bytes) room h)

pub filled-none :
    (written bytes : Bytes) (room : ℕ) → room < length bytes → filled written bytes room ≡ none
filled-none written bytes room h = rw (lt→not_leb (length bytes) room h)

pub filled-append :
    (written x ys : Bytes) (room : ℕ)
    → length x ≤ room
    → filled (written ++ x) ys (room - length x) ≡ filled written (x ++ ys) room
filled-append written x ys room h = elim (Bool-cases (leb (length ys) (room - length x))) [
  | inl fits ↦
      filled_fits (written ++ x) ys (room - length x) (leb→le _ _ fits)
      ∙ ap some (ap₂ cursor (append_assoc written x ys) (omega (arith, length-append x ys)))
      ∙ sym
          (filled_fits written (x ++ ys) room (omega (arith, length-append x ys, leb→le _ _ fits)))
  | inr big ↦
      filled-none (written ++ x) ys (room - length x) (ground arith)
      ∙ sym (filled-none written (x ++ ys) room (ground (arith, length-append x ys)))
]

pub write_all-cursor :
    (chunks : List Bytes) (written : Bytes) (room : ℕ)
    → length written + room < 2 ^ 32
    → write_all chunks (cursor written room) ≡ filled written (concat chunks) room
unfolding write_all
write_all-cursor [] written room small = sym (
    filled_fits written [] room (omega arith)
    ∙ ap some (ap₂ cursor (append-nil written) (omega arith)))
write_all-cursor (x ∷ xs) written room small = elim (Bool-cases (leb (length x) room)) [
  | inl fits ↦ rw (write-cursor x written room (leb→le _ _ fits) small) (
      write_all-cursor xs (written ++ x) (room - length x)
        (omega (arith, leb→le _ _ fits, length-append written x))
      ∙ filled-append written x (concat xs) room (leb→le _ _ fits))
  | inr big ↦ rw (write-cursor-none x written room (ground arith)) (
      sym (filled-none written (x ++ concat xs) room (ground (arith, length-append x (concat xs)))))
]
