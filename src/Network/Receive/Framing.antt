-- ===== src/Network/Receive/Framing.antt =====
-- `c_recvn` on a packet of vertices whose bytes hold no delimiter but those at their ends.
use dag_blockchain.Prelude.{
  All, Bytes, List, [], ap, append_assoc, arith, drop-length, length, length-append, le→not_ltb,
  refl, replicate, some, suc, sym, take-length, true, ℕ, ◌++◌, ◌+◌, ◌-◌, ◌∙◌, ◌∷◌, ◌≡◌, ◌≤◌,
}
use dag_blockchain.Network.Outcome.{max_stream_size, returns}
use dag_blockchain.Vertex.Deserialize.{deserialize_data}
use dag_blockchain.Vertex.{Vertex}
use dag_blockchain.Vertex.Wire.{fields, delims, body, body-fields}
use dag_blockchain.Vertex.Deserialize.RoundTrip.{IsSendable, deserialize-body}
use dag_blockchain.Network.Receive.{scan, chunk_buffer, c_recvn}
use dag_blockchain.Network.Receive.Scan.{is_clean, go_on, scan-segment, go_on-last, go_on-more}

-- One vertex of a packet, with the four bytes in front of it: the length of the packet, or zeros.
pub record Frame : Type 0 where
  pub header : Bytes
  pub vertex : Vertex

abbrev pub frame_start : Frame → Bytes
frame_start f = f.header ++ fields f.vertex

abbrev pub frame_bytes : Frame → Bytes
frame_bytes f = frame_start f ++ delims

pub record IsFrame (f : Frame) : Type 0 where
  pub four : length f.header ≡ 4
  pub sendable : IsSendable f.vertex
  pub clean : is_clean (frame_start f) ≡ true

abbrev pub packet : List Frame → Bytes
packet [] = []
packet (f ∷ fs) = frame_bytes f ++ packet fs

abbrev pub vertices_of : List Frame → List Vertex
vertices_of [] = []
vertices_of (f ∷ fs) = f.vertex ∷ vertices_of fs

frame-decodes :
    (f : Frame) → IsFrame f → deserialize_data (chunk_buffer (frame_bytes f)) ≡ some f.vertex
unfolding chunk_buffer
frame-decodes f ok =
    ap deserialize_data (
      ap (λ t. t ++ zeros)
        (append_assoc f.header (fields f.vertex) delims
          ∙ ap (λ t. f.header ++ t) (sym (body-fields f.vertex)))
      ∙ append_assoc f.header (body f.vertex) zeros)
    ∙ deserialize-body f.vertex f.header zeros ok.sendable ok.four
  where
    zeros : Bytes
    zeros = replicate (max_stream_size - length (frame_bytes f)) 0

scan-frame :
    (f : Frame) (before after buf : Bytes) (fuel received start : ℕ) (vertices : List Vertex)
    → IsFrame f
    → buf ≡ before ++ (frame_bytes f ++ after)
    → start ≡ length before
    → start + length (frame_bytes f) ≤ received
    → length (frame_bytes f) ≤ fuel
    → scan fuel received buf start start vertices
      ≡ go_on
          (fuel - length (frame_start f) - 1)
          received
          buf
          (start + length (frame_bytes f))
          (vertices ++ f.vertex ∷ [])
scan-frame f before after buf fuel received start vertices ok e here room enough =
    let n : length (frame_bytes f) ≡ length (frame_start f) + 4 =
      length-append (frame_start f) delims in
    let k = fuel - length (frame_start f) - 1 in
    let fuel' : fuel ≡ length (frame_start f) + suc k = omega (arith, n) in
    let next : start + length (frame_start f) + 4 ≡ start + length (frame_bytes f) =
      omega (arith, n) in
    ap (λ g. scan g received buf start start vertices) fuel'
    ∙ scan-segment (frame_start f) before after buf k received start vertices f.vertex ok.clean e
        here (omega (arith, n)) (frame-decodes f ok)
    ∙ ap (λ g. go_on k received buf g (vertices ++ f.vertex ∷ [])) next

scan-packet :
    (f : Frame) (fs : List Frame) (before after buf : Bytes) (fuel received start : ℕ)
    (vertices : List Vertex)
    → IsFrame f
    → All IsFrame fs
    → buf ≡ before ++ (packet (f ∷ fs) ++ after)
    → start ≡ length before
    → received ≡ start + length (packet (f ∷ fs))
    → length (packet (f ∷ fs)) ≤ fuel
    → scan fuel received buf start start vertices
      ≡ some (received, vertices ++ vertices_of (f ∷ fs), true)
scan-packet f [] before after buf fuel received start vertices ok oks e here size enough =
    let n : length (packet (f ∷ [])) ≡ length (frame_bytes f) =
      length-append (frame_bytes f) [] ∙ omega arith in
    let end : start + length (frame_bytes f) ≡ received = omega (arith, n) in
    scan-frame f before after buf fuel received start vertices ok
      (e ∙ ap (λ t. before ++ t) (append_assoc (frame_bytes f) [] after)) here (omega (arith, n))
      (omega (arith, n))
    ∙ ap (λ g. go_on (fuel - length (frame_start f) - 1) received buf g (vertices ++ f.vertex ∷ []))
        end
    ∙ go_on-last (fuel - length (frame_start f) - 1) received received buf
        (vertices ++ f.vertex ∷ []) (omega arith)
scan-packet f (g ∷ fs) before after buf fuel received start vertices ok oks e here size enough =
    let n : length (packet (f ∷ g ∷ fs)) ≡ length (frame_bytes f) + length (packet (g ∷ fs)) =
      length-append (frame_bytes f) (packet (g ∷ fs)) in
    let n' : length (frame_bytes f) ≡ length (frame_start f) + 4 =
      length-append (frame_start f) delims in
    let m : length (packet (g ∷ fs)) ≡ length (frame_start g) + 4 + length (packet fs) =
      length-append (frame_bytes g) (packet fs)
      ∙ ap (λ t. t + length (packet fs)) (length-append (frame_start g) delims) in
    let e' : buf ≡ before ++ (frame_bytes f ++ (packet (g ∷ fs) ++ after)) =
      e ∙ ap (λ t. before ++ t) (append_assoc (frame_bytes f) (packet (g ∷ fs)) after) in
    scan-frame f before (packet (g ∷ fs) ++ after) buf fuel received start vertices ok e' here
      (omega (arith, n)) (omega (arith, n))
    ∙ go_on-more (fuel - length (frame_start f) - 1) received (start + length (frame_bytes f)) buf
        (vertices ++ f.vertex ∷ []) (omega (arith, n, m))
    ∙ (scan-packet g fs (before ++ frame_bytes f) after buf (fuel - length (frame_start f) - 1)
          received (start + length (frame_bytes f)) (vertices ++ f.vertex ∷ []) oks.0 oks.1
          (e' ∙ sym (append_assoc before (frame_bytes f) (packet (g ∷ fs) ++ after)))
          (omega (arith, length-append before (frame_bytes f))) (omega (arith, n))
          (omega (arith, n, n'))
        ∙ ap (λ t. some (received, t, true))
            (append_assoc vertices (f.vertex ∷ []) (vertices_of (g ∷ fs))))

-- A packet of one or more frames, each four bytes and a vertex that fits its words and has no
-- delimiter pattern inside, that fits the stream buffer: the call returns its vertices in their
-- order, and leaves the bytes behind the packet on the connection.
pub c_recvn-packet :
    (f : Frame) (fs : List Frame) (rest : Bytes) (fuel : ℕ)
    → All IsFrame (f ∷ fs)
    → length (packet (f ∷ fs)) ≤ max_stream_size
    → c_recvn (suc fuel) (length (packet (f ∷ fs))) (packet (f ∷ fs) ++ rest) 0 []
      ≡ returns (vertices_of (f ∷ fs), rest)
unfolding c_recvn
c_recvn-packet f fs rest fuel oks fits =
    rw
      (
        take-length (packet (f ∷ fs)) rest (length (packet (f ∷ fs))) refl,
        le→not_ltb max_stream_size (length (packet (f ∷ fs))) fits,
        le→not_ltb (length (packet (f ∷ fs) ++ rest)) (length (packet (f ∷ fs)))
            (omega (arith, length-append (packet (f ∷ fs)) rest)),
        scan-packet f fs [] (replicate (max_stream_size - length (packet (f ∷ fs))) 0) _
            (length (packet (f ∷ fs))) (length (packet (f ∷ fs))) 0 [] oks.0 oks.1 refl refl
            (omega arith) (omega arith),
        drop-length (packet (f ∷ fs)) rest (length (packet (f ∷ fs))) refl,
      )
      refl
