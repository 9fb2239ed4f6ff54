-- ===== src/Network/Receive/Scan.antt =====
-- How the scan of `c_recvn` passes over bytes that hold no delimiter, and over one segment.
use dag_blockchain.Prelude.{
  Bool, Bytes, List, Option, [], ap, append_assoc, ap₂, arith, false, get_elem?-append, length,
  length-append, le→leb, ltb, lt→ltb, nat_eq, not, refl, some, suc, sym, true, ℕ, ◌&&◌, ◌++◌, ◌+◌,
  ◌-◌, ◌<◌, ◌==◌, ◌∙◌, ◌∷◌, ◌≡◌, ◌≤◌,
}
use dag_blockchain.Bytes.Buffer.{read, read-skip, read-prefix}
use dag_blockchain.Vertex.Deserialize.{deserialize_data}
use dag_blockchain.Vertex.{Vertex}
use dag_blockchain.Vertex.Serialize.{delim}
use dag_blockchain.Vertex.Wire.{delims}
use dag_blockchain.Network.Receive.{is_delimited, scan, take_segment, chunk_buffer}

-- The test of the scan at the head of what is left.
abbrev pub starts_delimited : Bytes → Bool
starts_delimited (a ∷ b ∷ c ∷ d ∷ rest) = a == delim && d == delim
starts_delimited _ = false

-- No byte of these, with the four delimiters behind them, passes the test.
unfoldable pub is_clean : Bytes → Bool
is_clean [] = true
is_clean (x ∷ xs) = not (starts_delimited ((x ∷ xs) ++ delims)) && is_clean xs

and_not : (a b : Bool) → (not a && b) ≡ true → (a ≡ false) × (b ≡ true)
and_not a b h = ground arith

is_delimited-append :
    (before rest : Bytes) (i : ℕ)
    → i ≡ length before
    → 4 ≤ length rest
    → is_delimited (before ++ rest) i ≡ some (starts_delimited rest)
unfolding is_delimited
is_delimited-append before [] i e h = absurd (omega arith)
is_delimited-append before (a ∷ []) i e h = absurd (omega arith)
is_delimited-append before (a ∷ b ∷ []) i e h = absurd (omega arith)
is_delimited-append before (a ∷ b ∷ c ∷ []) i e h = absurd (omega arith)
is_delimited-append before (a ∷ b ∷ c ∷ d ∷ rest) i e h =
    rw
      (
        get_elem?-append before (a ∷ b ∷ c ∷ d ∷ rest) i 0 (omega arith),
        get_elem?-append before (a ∷ b ∷ c ∷ d ∷ rest) (i + 3) 3 (omega arith),
      )
      (ground arith)

starts_delimited-append :
    (xs ys : Bytes) → 4 ≤ length xs → starts_delimited (xs ++ ys) ≡ starts_delimited xs
starts_delimited-append [] ys h = absurd (omega arith)
starts_delimited-append (a ∷ []) ys h = absurd (omega arith)
starts_delimited-append (a ∷ b ∷ []) ys h = absurd (omega arith)
starts_delimited-append (a ∷ b ∷ c ∷ []) ys h = absurd (omega arith)
starts_delimited-append (a ∷ b ∷ c ∷ d ∷ xs) ys h = refl

not_delimited :
    (x : ℕ) (xs before after buf : Bytes) (i : ℕ)
    → is_clean (x ∷ xs) ≡ true
    → buf ≡ before ++ ((x ∷ xs) ++ (delims ++ after))
    → i ≡ length before
    → (is_delimited buf i ≡ some false) × (is_clean xs ≡ true)
unfolding is_clean
not_delimited x xs before after buf i clean e here =
    let long : 4 ≤ length ((x ∷ xs) ++ delims) = omega (arith, length-append xs delims) in
    let long' : 4 ≤ length ((x ∷ xs) ++ (delims ++ after)) =
      omega (arith, length-append xs (delims ++ after), length-append delims after) in
    let here' : is_delimited buf i ≡ some (starts_delimited ((x ∷ xs) ++ (delims ++ after))) =
      rw e (is_delimited-append before _ i here long') in
    let same : starts_delimited ((x ∷ xs) ++ (delims ++ after))
        ≡ starts_delimited ((x ∷ xs) ++ delims) =
      ap starts_delimited (sym (append_assoc (x ∷ xs) delims after))
      ∙ starts_delimited-append ((x ∷ xs) ++ delims) after long in
    let split = and_not (starts_delimited ((x ∷ xs) ++ delims)) (is_clean xs) clean in
    (here' ∙ ap some (same ∙ split.0), split.1)

-- Bytes without a delimiter are passed one by one.
pub scan-clean :
    (bytes before after buf : Bytes) (fuel received i start : ℕ) (vertices : List Vertex)
    → is_clean bytes ≡ true
    → buf ≡ before ++ (bytes ++ (delims ++ after))
    → i ≡ length before
    → i + length bytes < received
    → scan (length bytes + fuel) received buf i start vertices
      ≡ scan fuel received buf (i + length bytes) start vertices
unfolding scan is_clean
scan-clean [] before after buf fuel received i start vertices clean e here room =
    ap₂ (λ f j. scan f received buf j start vertices) (omega arith) (omega arith)
scan-clean (x ∷ xs) before after buf fuel received i start vertices clean e here room =
    let (no_hit, clean') = not_delimited x xs before after buf i clean e here in
    let end : i + 1 + length xs ≡ i + suc (length xs) = omega arith in
    let fuel' : suc (length xs) + fuel ≡ suc (length xs + fuel) = omega arith in
    ap (λ f. scan f received buf i start vertices) fuel'
    ∙ rw (lt→ltb i received (omega arith), no_hit)
        (scan-clean xs (before ++ x ∷ []) after buf fuel received (i + 1) start vertices clean'
            (e ∙ sym (append_assoc before (x ∷ []) (xs ++ (delims ++ after))))
            (omega (arith, length-append before (x ∷ []))) (omega arith)
          ∙ ap (λ j. scan fuel received buf j start vertices) end)

-- What the scan does at the delimiters of a segment that decodes to `v`.
abbrev pub go_on : ℕ → ℕ → Bytes → ℕ → List Vertex → Option (ℕ × List Vertex × Bool)
go_on fuel received buf next vertices = elim (ltb next received) [
  | true ↦ scan fuel received buf next next vertices
  | false ↦ some (next, vertices, true)
]

pub go_on-last :
    (fuel received next : ℕ) (buf : Bytes) (vertices : List Vertex)
    → received ≤ next
    → go_on fuel received buf next vertices ≡ some (next, vertices, true)
go_on-last fuel received next buf vertices h = ground arith

pub go_on-more :
    (fuel received next : ℕ) (buf : Bytes) (vertices : List Vertex)
    → next < received
    → go_on fuel received buf next vertices ≡ scan fuel received buf next next vertices
go_on-more fuel received next buf vertices h = ground arith

scan-delims :
    (before after buf : Bytes) (fuel received i start : ℕ) (vertices : List Vertex) (v : Vertex)
    → buf ≡ before ++ (delims ++ after)
    → i ≡ length before
    → i < received
    → take_segment buf start (i + 3) ≡ some v
    → scan (suc fuel) received buf i start vertices
      ≡ go_on fuel received buf (i + 4) (vertices ++ v ∷ [])
unfolding scan
scan-delims before after buf fuel received i start vertices v e here room segment =
    let hit : is_delimited buf i ≡ some true =
      rw e (is_delimited-append before _ i here (omega arith)) in
    rw (lt→ltb i received room, hit, segment) refl

take_segment-frame :
    (before segment after buf : Bytes) (start last : ℕ) (v : Vertex)
    → buf ≡ before ++ (segment ++ after)
    → start ≡ length before
    → last + 1 ≡ start + length segment
    → deserialize_data (chunk_buffer segment) ≡ some v
    → take_segment buf start last ≡ some v
unfolding take_segment
take_segment-frame before segment after buf start last v e here size decoded =
    let n : last + 1 - start ≡ length segment = omega arith in
    let cut : read buf start (last + 1 - start) ≡ some segment =
      rw (e, n)
        (read-skip before (segment ++ after) start 0 (length segment) (omega arith)
          ∙ read-prefix segment after (length segment) refl) in
    rw (le→leb start (last + 1) (omega arith), cut) decoded

-- A whole segment: bytes without a delimiter, then the delimiters, decoded together.
pub scan-segment :
    (bytes before after buf : Bytes) (fuel received start : ℕ) (vertices : List Vertex) (v : Vertex)
    → is_clean bytes ≡ true
    → buf ≡ before ++ ((bytes ++ delims) ++ after)
    → start ≡ length before
    → start + length bytes < received
    → deserialize_data (chunk_buffer (bytes ++ delims)) ≡ some v
    → scan (length bytes + suc fuel) received buf start start vertices
      ≡ go_on fuel received buf (start + length bytes + 4) (vertices ++ v ∷ [])
scan-segment bytes before after buf fuel received start vertices v clean e here room decoded =
    let e' : buf ≡ before ++ (bytes ++ (delims ++ after)) =
      e ∙ ap (λ t. before ++ t) (append_assoc bytes delims after) in
    scan-clean bytes before after buf (suc fuel) received start start vertices clean e' here room
    ∙ scan-delims (before ++ bytes) after buf fuel received (start + length bytes) start vertices v
        (e' ∙ sym (append_assoc before bytes (delims ++ after)))
        (omega (arith, length-append before bytes)) room
        (take_segment-frame before (bytes ++ delims) after buf start (start + length bytes + 3) v e
          here (omega (arith, length-append bytes delims)) decoded)
