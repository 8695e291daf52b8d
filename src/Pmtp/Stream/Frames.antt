-- ===== src/Pmtp/Stream/Frames.antt =====
-- What comes out of a stream of pmtp/jrpc_stream.go is what went in.
use pmesh.Base.{
  ℕ, ◌^◌, ◌<◌, ◌≡◌, refl, sym, ◌∙◌, ap, Bool, true, false, not, ◌&&◌, ◌||◌, some, List, [], ◌∷◌,
  ◌++◌, ◌==◌, if◌then◌else◌, ltb, length, arith, append_assoc, Bool-cases, inl, inr,
}
use pmesh.Pmtp.Stream.{
  Frame, newline, terminated, body_bytes, put_uint32, write_frame, read_ok, read_header, read_until,
  read_body, with_line, with_id, with_header, continue_with, read_frame, read_frames, write_frames,
}

abbrev pub has_byte : ℕ → List ℕ → Bool
has_byte b [] = false
has_byte b (c ∷ s) = c == b || has_byte b s

-- A body of one line: no line feed but its last byte.
abbrev pub is_line : List ℕ → Bool
is_line [] = true
is_line (c ∷ []) = true
is_line (c ∷ d ∷ body) = not (c == newline) && is_line (d ∷ body)

-- A frame that the format can carry.
abbrev pub is_sendable : Frame → Bool
is_sendable f = ltb f.header (2 ^ 32) && (not (has_byte 0 f.id) && is_line f.body)

abbrev pub all_sendable : List Frame → Bool
all_sendable [] = true
all_sendable (f ∷ fs) = is_sendable f && all_sendable fs

abbrev ends_line : List ℕ → Bool
ends_line [] = false
ends_line (c ∷ []) = c == 10
ends_line (c ∷ d ∷ body) = ends_line (d ∷ body)

-- A body as it is read: the same bytes, with a line feed where it does not end with one, and `{}`
-- and a line feed for an empty one.
abbrev received_body : List ℕ → List ℕ
received_body [] = 123 ∷ 125 ∷ 10 ∷ []
received_body (c ∷ body) = if ends_line (c ∷ body) then c ∷ body else (c ∷ body) ++ 10 ∷ []

-- A frame as it is read.
abbrev pub received : Frame → Frame
received f = record f { body = received_body f.body }

abbrev pub received_all : List Frame → List Frame
received_all [] = []
received_all (f ∷ fs) = received f ∷ received_all fs

read_until-stop :
    (stop : ℕ) (s rest : List ℕ)
    → has_byte stop s ≡ false
    → read_until stop (s ++ stop ∷ rest) ≡ some (s, rest)
unfolding read_until
read_until-stop stop [] rest free = ground arith
read_until-stop stop (c ∷ s) rest free =
    rw (no_stop, read_until-stop stop s rest (ground arith)) refl
  where
    no_stop : (c == stop) ≡ false
    no_stop = ground arith

-- The bytes of a body before its line feed.
abbrev stem : List ℕ → List ℕ
stem [] = []
stem (c ∷ []) = if c == newline then [] else c ∷ []
stem (c ∷ d ∷ body) = c ∷ stem (d ∷ body)

terminated-stem : (body : List ℕ) → terminated body ≡ stem body ++ newline ∷ []
unfolding terminated
terminated-stem [] = refl
terminated-stem (c ∷ []) = ground arith
terminated-stem (c ∷ d ∷ body) = ap (◌∷◌ c) (terminated-stem (d ∷ body))

terminated-ends_line :
    (body : List ℕ) → terminated body ≡ (if ends_line body then body else body ++ 10 ∷ [])
unfolding terminated
terminated-ends_line [] = refl
terminated-ends_line (c ∷ []) = ground arith
terminated-ends_line (c ∷ d ∷ body) = elim (Bool-cases (ends_line (d ∷ body))) [
  | inl ends ↦ rw ends (ap (◌∷◌ c) (terminated-ends_line (d ∷ body) ∙ rw ends refl))
  | inr more ↦ rw more (ap (◌∷◌ c) (terminated-ends_line (d ∷ body) ∙ rw more refl))
]

body_bytes_lem : (body : List ℕ) → body_bytes body ≡ received_body body
unfolding body_bytes
body_bytes_lem [] = refl
body_bytes_lem (c ∷ body) = terminated-ends_line (c ∷ body)

stem-line : (body : List ℕ) → is_line body ≡ true → has_byte newline (stem body) ≡ false
stem-line [] h = refl
stem-line (c ∷ []) h = ground arith
stem-line (c ∷ d ∷ body) h = ground (arith, stem-line (d ∷ body))

body_stem : List ℕ → List ℕ
body_stem [] = 123 ∷ 125 ∷ []
body_stem (c ∷ body) = stem (c ∷ body)

body_bytes-stem : (body : List ℕ) → body_bytes body ≡ body_stem body ++ newline ∷ []
unfolding body_bytes body_stem
body_bytes-stem [] = refl
body_bytes-stem (c ∷ body) = terminated-stem (c ∷ body)

body_stem-line : (body : List ℕ) → is_line body ≡ true → has_byte newline (body_stem body) ≡ false
unfolding body_stem
body_stem-line [] h = refl
body_stem-line (c ∷ body) h = stem-line (c ∷ body) h

read_header-put :
    (h : ℕ) (rest : List ℕ) → h < 2 ^ 32 → read_header (put_uint32 h ++ rest) ≡ read_ok h rest
unfolding read_header put_uint32
read_header-put h rest small = ap (λ x. read_ok x rest) (omega arith)

read_body-line :
    (h : ℕ) (id body rest : List ℕ)
    → has_byte 0 id ≡ false
    → is_line body ≡ true
    → read_body h (id ++ 0 ∷ (body_bytes body ++ rest))
      ≡ read_ok (record { header = h; id = id; body = received_body body }) rest
unfolding read_body with_id with_line
read_body-line h id body rest free line =
    let e = body_bytes-stem body in
    let first = read_until-stop 0 id (body_bytes body ++ rest) free in
    let second : read_until newline (body_bytes body ++ rest) ≡ some (body_stem body, rest) =
      ap (λ x. read_until newline (x ++ rest)) e
      ∙ (ap (read_until newline) (append_assoc (body_stem body) (newline ∷ []) rest)
          ∙ read_until-stop newline (body_stem body) rest (body_stem-line body line)) in
    ap (with_id h) first
    ∙ (ap (with_line h id) second
        ∙ ap (λ x. read_ok (record { header = h; id = id; body = x }) rest)
            (sym e ∙ body_bytes_lem body))

read_frame-write :
    (f : Frame) (rest : List ℕ)
    → is_sendable f ≡ true
    → read_frame (write_frame f ++ rest) ≡ read_ok (received f) rest
unfolding read_frame write_frame with_header
read_frame-write f rest ok =
    let small : f.header < 2 ^ 32 = ground arith in
    let free : has_byte 0 f.id ≡ false = ground arith in
    let line : is_line f.body ≡ true = ground arith in
    let split =
      append_assoc (put_uint32 f.header) (f.id ++ 0 ∷ body_bytes f.body) rest
      ∙ ap (λ x. put_uint32 f.header ++ x) (append_assoc f.id (0 ∷ body_bytes f.body) rest) in
    ap (λ x. with_header (read_header x)) split
    ∙ (ap with_header (read_header-put f.header (f.id ++ 0 ∷ (body_bytes f.body ++ rest)) small)
        ∙ read_body-line f.header f.id f.body rest free line)

-- Frames whose header is a uint32, whose identifier has no zero byte and whose body has no line feed
-- before its end come out in their order, each with its header, its identifier and the bytes of its
-- body, to which a line feed is added where it does not end with one, and with `{}` and a line feed for
-- an empty body; nothing of the bytes behind them is read.
pub read_frames-write_frames :
    (fs : List Frame) (rest : List ℕ)
    → all_sendable fs ≡ true
    → read_frames (length fs) (write_frames fs ++ rest) ≡ (received_all fs, rest)
unfolding read_frames write_frames continue_with
read_frames-write_frames [] rest ok = refl
read_frames-write_frames (f ∷ fs) rest ok =
    let one = read_frame-write f (write_frames fs ++ rest) (ground arith) in
    let more = read_frames-write_frames fs rest (ground arith) in
    let split = append_assoc (write_frame f) (write_frames fs) rest in
    ap (λ x. continue_with (read_frames (length fs)) x (read_frame x)) split
    ∙ (ap (continue_with (read_frames (length fs)) (write_frame f ++ (write_frames fs ++ rest))) one
        ∙ ap (λ (x : List Frame × List ℕ). (received f ∷ x.0, x.1)) more)
