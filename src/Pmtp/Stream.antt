-- ===== src/Pmtp/Stream.antt =====
-- pmtp/jrpc_stream.go: packets as bytes on a connection. A header is a uint32 in little-endian order, an
-- identifier ends at a zero byte and a body at a line feed. The connection is the list of bytes that
-- are left to read; the locks, the buffers and the pools of buffers are left out.
pub mod Frames
use pmesh.Base.{
  ℕ, zero, suc, ◌+◌, ◌*◌, ◌/◌, ◌%◌, ◌^◌, Bool, true, false, Option, none, some, List, [], ◌∷◌, ◌++◌,
  ◌==◌, if◌then◌else◌,
}

abbrev Bytes : Type 0
Bytes = List ℕ

-- The header and the fields of `jrpcPacket` that a stream carries.
pub record Frame : Type 0 where
  pub header : ℕ
  pub id : List ℕ
  pub body : List ℕ

abbrev pub newline : ℕ
newline = 10

-- `v.Body[n-1] != '\n'` decides whether a line feed is added.
unfoldable pub terminated : Bytes → Bytes
terminated [] = newline ∷ []
terminated (c ∷ []) = if c == newline then c ∷ [] else c ∷ newline ∷ []
terminated (c ∷ d ∷ body) = c ∷ terminated (d ∷ body)

-- The body as it is written; `noBody` is the zero byte with these three.
unfoldable pub body_bytes : Bytes → Bytes
body_bytes [] = 123 ∷ 125 ∷ newline ∷ []
body_bytes (c ∷ body) = terminated (c ∷ body)

-- binary.LittleEndian
unfoldable pub put_uint32 : ℕ → Bytes
put_uint32 h = h % 256 ∷ h / 2 ^ 8 % 256 ∷ h / 2 ^ 16 % 256 ∷ h / 2 ^ 24 % 256 ∷ []

-- `Write`: the bytes that it sends.
unfoldable pub write_frame : Frame → Bytes
write_frame f = put_uint32 f.header ++ (f.id ++ 0 ∷ body_bytes f.body)

-- `Write` on a stream that may be closed: `none` is io.ErrClosedPipe.
unfoldable pub write_open : Bool → Frame → Option Bytes
write_open is_open f = if is_open then some (write_frame f) else none

-- What a reader gives: its result and the bytes that are left, the end of the connection, or an end in
-- the middle of a value.
pub data Reading {ℓ} (A : Type ℓ) : Type ℓ where
  read_ok : A → Bytes → Reading A
  at_end cut_off : Reading A

-- `ReadHeader`
unfoldable pub read_header : Bytes → Reading ℕ
read_header [] = at_end
read_header (a ∷ b ∷ c ∷ d ∷ rest) = read_ok (a + b * 2 ^ 8 + c * 2 ^ 16 + d * 2 ^ 24) rest
read_header _ = cut_off

-- `ReadString(0)` and `ReadBytes('\n')`: what comes before the byte, which is the last one read.
unfoldable pub read_until : ℕ → Bytes → Option (Bytes × Bytes)
read_until stop [] = none
read_until stop (c ∷ rest) =
    let more = read_until stop rest in
    if c == stop
    then some ([], rest)
    else elim more [ none ↦ none | some (xs, left) ↦ some (c ∷ xs, left) ]

-- The two reads of `ReadBody`, by what each of them gives.
unfoldable pub with_line : ℕ → Bytes → Option (Bytes × Bytes) → Reading Frame
with_line h id none = cut_off
with_line h id (some (line, left)) =
    read_ok (record { header = h; id = id; body = line ++ newline ∷ [] }) left

unfoldable pub with_id : ℕ → Option (Bytes × Bytes) → Reading Frame
with_id h none = cut_off
with_id h (some (id, rest)) = with_line h id (read_until newline rest)

-- `ReadBody`: the identifier loses its zero byte, the body keeps its line feed.
unfoldable pub read_body : ℕ → Bytes → Reading Frame
read_body h bytes = with_id h (read_until 0 bytes)

unfoldable pub with_header : Reading ℕ → Reading Frame
with_header (read_ok h rest) = read_body h rest
with_header at_end = at_end
with_header cut_off = cut_off

-- A header and its body, as `jrpcDuplex.input` reads them.
unfoldable pub read_frame : Bytes → Reading Frame
read_frame bytes = with_header (read_header bytes)

unfoldable pub continue_with :
    (Bytes → List Frame × Bytes) → Bytes → Reading Frame → List Frame × Bytes
continue_with next bytes (read_ok f rest) = let (fs, left) = next rest in (f ∷ fs, left)
continue_with next bytes at_end = ([], bytes)
continue_with next bytes cut_off = ([], bytes)

-- The frames that come in until `n` are read or the stream ends, and the bytes that are left.
unfoldable pub read_frames : ℕ → Bytes → List Frame × Bytes
read_frames zero bytes = ([], bytes)
read_frames (suc n) bytes = continue_with (λ rest. read_frames n rest) bytes (read_frame bytes)

unfoldable pub write_frames : List Frame → Bytes
write_frames [] = []
write_frames (f ∷ fs) = write_frame f ++ write_frames fs

-- The body of a call as `jrpcPacket.Encode` gets it: nil, a json.RawMessage, or a value with what the
-- encoder makes of it, `none` where it fails.
pub data Content : Type 0 where
  no_content : Content
  raw : List ℕ → Content
  value : Option (List ℕ) → Content

-- `Encode`: the body of the packet, or the error of the encoder.
unfoldable pub encode_body : Content → Option Bytes
encode_body no_content = some []
encode_body (raw message) = some message
encode_body (value encoded) = encoded
