-- ===== src/Vhttp/Buffered.antt =====
-- vhttp/buffered_response.go: a response that is kept, and a writer that notes whether it was used. A
-- header gives the values of a key, a body is a list of bytes.
use pmesh.Base.{
  ℕ, Bool, true, false, ◌&&◌, ◌⊎◌, Option, none, some, List, [], ◌∷◌, ◌++◌, ◌==◌, if◌then◌else◌,
  ◌≡◌, refl, arith, Bool-cases, inl, inr,
}
use pmesh.Base.Text.{Text, text_eq}

abbrev pub Header : Type 0
Header = Text → Option (List Text)

-- `BufferedResponse`
pub record BufferedResponse : Type 0 where
  pub status : ℕ
  pub headers : Header
  pub body : List ℕ

-- `NewBufferedResponse` without a buffer.
unfoldable pub new_buffered_response : BufferedResponse
new_buffered_response = record { status = 0; headers = λ k. none; body = [] }

-- `Write`
unfoldable pub write : List ℕ → BufferedResponse → BufferedResponse
write b bw = record bw { status = if bw.status == 0 then 200 else bw.status; body = bw.body ++ b }

-- `WriteHeader`
unfoldable pub write_header : ℕ → BufferedResponse → BufferedResponse
write_header status bw = record bw { status = status }

-- A change of the headers by a handler.
unfoldable pub set_header : Text → List Text → BufferedResponse → BufferedResponse
set_header key v bw = record bw { headers = λ k. if text_eq key k then some v else bw.headers k }

-- bytes.Buffer.WriteTo writes what there is.
abbrev pub write_to : List ℕ → BufferedResponse → BufferedResponse
write_to [] w = w
write_to (c ∷ b) w = write (c ∷ b) w

-- The value of a key that is set over another one.
abbrev pub over : Option (List Text) → Option (List Text) → Option (List Text)
over none old = old
over (some v) old = some v

-- `BufferedResponse.ServeHTTP` to a writer of the same kind.
unfoldable pub replay : BufferedResponse → BufferedResponse → BufferedResponse
replay bw w =
    let x = record w { headers = λ k. over (bw.headers k) (w.headers k) } in
    write_to bw.body (if bw.status == 0 then x else write_header bw.status x)

abbrev pub has_body : List ℕ → Bool
has_body [] = false
has_body (c ∷ b) = true

over-none : (o : Option (List Text)) → over o none ≡ o
over-none none = refl
over-none (some v) = refl

-- A response that is served to a fresh one of its kind arrives there as it is, except that the status 0
-- of a body that is not empty arrives as 200.
pub replay_lem :
    (bw : BufferedResponse) (k : Text)
    → let w = replay bw new_buffered_response in
      (w.status ≡ (if bw.status == 0 && has_body bw.body then 200 else bw.status))
      × (w.body ≡ bw.body)
      × (w.headers k ≡ bw.headers k)
unfolding replay new_buffered_response write write_header
replay_lem bw k = by_body bw.body bw.status bw.headers
  where
    by_body :
        (b : List ℕ) (status : ℕ) (headers : Header)
        → let w =
            replay
              (record { status = status; headers = headers; body = b })
              new_buffered_response in
          (w.status ≡ (if status == 0 && has_body b then 200 else status))
          × (w.body ≡ b)
          × (w.headers k ≡ headers k)
    by_body [] status headers = elim (Bool-cases (status == 0)) [
      | inl z ↦ rw z (ground arith, refl, over-none (headers k))
      | inr n ↦ rw n (refl, refl, over-none (headers k))
    ]
    by_body (c ∷ b) status headers = elim (Bool-cases (status == 0)) [
      | inl z ↦ rw z (refl, refl, over-none (headers k))
      | inr n ↦ rw n (ground arith, refl, over-none (headers k))
    ]

-- `ConditionalResponse` over a writer that is a buffered response.
pub record ConditionalResponse : Type 0 where
  pub rw_ : BufferedResponse
  pub touched : Bool

unfoldable pub new_conditional_response : BufferedResponse → ConditionalResponse
new_conditional_response w = record { rw_ = w; touched = false }

pub data Call : Type 0 where
  call_header : (key : Text) (v : List Text) → Call
  call_write : (b : List ℕ) → Call
  call_write_header : (status : ℕ) → Call

-- A call of the writer by a handler.
unfoldable pub call : Call → ConditionalResponse → ConditionalResponse
call (call_header key v) cr = record cr { rw_ = set_header key v cr.rw_ }
call (call_write b) cr = record { rw_ = write b cr.rw_; touched = true }
call (call_write_header status) cr = record { rw_ = write_header status cr.rw_; touched = true }

unfoldable pub call_all : List Call → ConditionalResponse → ConditionalResponse
call_all [] cr = cr
call_all (c ∷ calls) cr = call_all calls (call c cr)

-- A response whose status or body has changed.
abbrev Unused : BufferedResponse → ConditionalResponse → Type 0
Unused w cr = (cr.touched ≡ true) ⊎ ((cr.rw_.status ≡ w.status) × (cr.rw_.body ≡ w.body))

call_all-Unused :
    (calls : List Call) (w : BufferedResponse) (cr : ConditionalResponse)
    → Unused w cr
    → Unused w (call_all calls cr)
unfolding call_all call set_header
call_all-Unused [] w cr h = h
call_all-Unused (call_header key v ∷ calls) w cr h =
    call_all-Unused calls w (record cr { rw_ = set_header key v cr.rw_ }) h
call_all-Unused (call_write b ∷ calls) w cr h = call_all-Unused calls w _ (inl refl)
call_all-Unused (call_write_header s ∷ calls) w cr h = call_all-Unused calls w _ (inl refl)

-- A writer that is not noted as used has neither a status nor a body from the handler.
pub untouched :
    (calls : List Call) (w : BufferedResponse)
    → let cr = call_all calls (new_conditional_response w) in
      (cr.touched ≡ true) ⊎ ((cr.rw_.status ≡ w.status) × (cr.rw_.body ≡ w.body))
unfolding new_conditional_response
untouched calls w = call_all-Unused calls w (new_conditional_response w) (inr (refl, refl))
