-- ===== src/Http/Receive.antt =====
-- `HttpSession::recvRequest` of saturn/http/http_session.cc, and the loop for the head that `recvResponse` of
-- saturn/http/http_connection.cc shares with it. The parser of saturn/http/external, the `read` of the
-- stream and whether `std::string::resize` returns are parameters.
use saturn.Base.{
  ℕ, zero, suc, ◌-◌, ◌^◌, Bool, true, false, ◌&&◌, ◌||◌, Option, none, some, List, [], ◌++◌, length,
  take, drop, ltb, leb, ◌==◌, if◌then◌else◌,
}
use saturn.Stream.{Received, received, read_error, read_fix_size}
use saturn.Http.Messages.{HttpRequest, init}

-- The parser, with the states `P`: `run` takes the bytes that are in the buffer, and gives how many of them it
-- has parsed.
pub record Engine {ℓ} (P : Type ℓ) : Type ℓ where
  pub run : List ℕ → P → P × ℕ
  pub has_error : P → Bool
  pub is_finished : P → Bool
  pub content_length : P → ℕ

-- How the loop for the head ends: the stream has been closed and no message is returned; the head has been
-- read, and the bytes behind it that are in the buffer; more is moved out of the buffer than it has, or bytes
-- from before it are moved in; or `fuel` rounds were not enough.
pub data Head {ℓ κ} (P : Type ℓ) (W : Type κ) : Type (ℓ ⊔ κ) where
  head_closed : (w : W) → Head P W
  head_read : (p : P) (left : List ℕ) (w : W) → Head P W
  head_overrun head_unfinished : Head P W

-- The round behind `execute`, on what is left in the buffer of `size` bytes.
unfoldable pub after_parse {ℓ κ} :
    {P : Type ℓ} {W : Type κ}
    → Engine P
    → ℕ
    → (List ℕ → P → W → Head P W)
    → List ℕ
    → P
    → W
    → Head P W
after_parse engine size again left p w =
    if engine.has_error p
    then head_closed w
    else if length left == size
    then head_closed w
    else elim (engine.is_finished p) [ true ↦ head_read p left w | false ↦ again left p w ]

-- `execute` and what follows it: `advance` is by how many bytes the buffer is moved.
unfoldable pub after_read {ℓ κ} :
    {P : Type ℓ} {W : Type κ}
    → Engine P
    → (ℕ → Option ℕ)
    → ℕ
    → (List ℕ → P → W → Head P W)
    → List ℕ
    → P
    → W
    → Head P W
after_read engine advance size again buffer p w =
    let (p', n) = engine.run buffer p in
    elim (advance n) [
      | none ↦ head_overrun
      | some k ↦ elim (leb k (length buffer)) [
        | true ↦ after_parse engine size again (drop k buffer) p' w
        | false ↦ head_overrun
      ]
    ]

-- The loop, with what is in the buffer.
unfoldable pub recv_head {ℓ κ} :
    {P : Type ℓ} {W : Type κ}
    → Engine P
    → (ℕ → Option ℕ)
    → (ℕ → W → Received × W)
    → ℕ
    → ℕ
    → List ℕ
    → P
    → W
    → Head P W
recv_head engine advance read size zero buffer p w = head_unfinished
recv_head engine advance read size (suc fuel) buffer p w =
    let (r, w') = read (size - length buffer) w in
    elim r [
      | read_error len ↦ head_closed w'
      | received bs ↦ elim (length bs == 0) [
        | true ↦ head_closed w'
        | false ↦
            after_read engine advance size
              (λ left q v. recv_head engine advance read size fuel left q v) (buffer ++ bs) p w'
      ]
    ]

-- What is read as the body. `body_threw` is an exception of `resize`.
pub data Body {ℓ} (W : Type ℓ) : Type ℓ where
  no_body : (w : W) → Body W
  body_threw : (w : W) → Body W
  body_closed : (w : W) → Body W
  body_read : (bytes_read : List ℕ) (w : W) → Body W

-- An `int` that is not positive, by its bits.
unfoldable pub not_positive : ℕ → Bool
not_positive code = (code == 0) || leb (2 ^ 31) code

-- The part for a body of `n` bytes, of which those in the buffer are the first: a length from 2 ^ 63 on is
-- negative as an `int64_t`. `resize` tells whether `body.resize` of a length returns.
unfoldable pub recv_body {ℓ} :
    {W : Type ℓ} → (ℕ → Bool) → (ℕ → W → Received × W) → ℕ → List ℕ → W → Body W
recv_body resize read n left w =
    if leb 1 n && ltb n (2 ^ 63)
    then elim (resize n) [
      | false ↦ body_threw w
      | true ↦ elim (ltb (length left) n) [
        | false ↦ body_read (take n left) w
        | true ↦
            let (code, rest, w') = read_fix_size read (n - length left) w in
            if not_positive code then body_closed w' else body_read (left ++ rest) w'
      ]
    ]
    else no_body w

-- `execute` of the request's parser moves what it has parsed out of the buffer.
unfoldable pub request_advance : ℕ → Option ℕ
request_advance n = some n

-- How a call ends: with the message, or the stream closed and none, or with the exception of `resize`, which
-- leaves the stream open.
pub data Result {ℓ κ} (M : Type ℓ) (W : Type κ) : Type (ℓ ⊔ κ) where
  message_received : (message : M) (w : W) → Result M W
  stream_closed : (w : W) → Result M W
  resize_threw : (w : W) → Result M W
  buffer_overrun fuel_spent : Result M W

-- `setBody` and `init`.
unfoldable pub request_with {ℓ} : {W : Type ℓ} → HttpRequest → Body W → Result HttpRequest W
request_with request (no_body w) = message_received (init request) w
request_with request (body_threw w) = resize_threw w
request_with request (body_closed w) = stream_closed w
request_with request (body_read bs w) = message_received (init (record request { body = bs })) w

-- What follows the loop for the head.
unfoldable pub after_head {ℓ κ} :
    {P : Type ℓ} {W : Type κ}
    → Engine P
    → (P → HttpRequest)
    → (ℕ → Bool)
    → (ℕ → W → Received × W)
    → Head P W
    → Result HttpRequest W
after_head engine message resize read (head_closed w) = stream_closed w
after_head engine message resize read (head_read p left w) =
    request_with (message p) (recv_body resize read (engine.content_length p) left w)
after_head engine message resize read head_overrun = buffer_overrun
after_head engine message resize read head_unfinished = fuel_spent

unfoldable pub recv_request {ℓ κ} :
    {P : Type ℓ} {W : Type κ}
    → Engine P
    → (P → HttpRequest)
    → P
    → (ℕ → Bool)
    → (ℕ → W → Received × W)
    → ℕ
    → ℕ
    → W
    → Result HttpRequest W
recv_request engine message start resize read size fuel w =
    after_head engine message resize read
      (recv_head engine request_advance read size fuel [] start w)
