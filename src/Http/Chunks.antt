-- ===== src/Http/Chunks.antt =====
-- `HttpConnection::recvResponse` of saturn/http/http_connection.cc, over the parser of saturn/http/external and
-- the `read` of the stream.
use saturn.Base.{
  ℕ, zero, suc, ◌-◌, min, Bool, true, false, Option, none, some, List, [], ◌++◌, length, take, drop,
  leb, ◌==◌,
}
use saturn.Stream.{Received, received, read_error}
use saturn.Http.Messages.{HttpResponse}
use saturn.Http.Receive.{
  Engine, head_closed, head_read, head_overrun, head_unfinished, recv_head, Body, no_body,
  body_closed, body_threw, resize_threw, body_read, recv_body, Result, message_received,
  stream_closed, buffer_overrun, fuel_spent,
}

-- What `httpclient_parser` keeps of a chunk; `restart` is `httpclient_parser_init`.
pub record Client {ℓ} (P : Type ℓ) : Type ℓ where
  pub chunked : P → Bool
  pub content_len : P → ℕ
  pub chunks_done : P → Bool
  pub restart : P → P

-- `execute` takes 1 off what has been parsed: after 0 bytes it moves the byte before the buffer.
unfoldable pub response_advance : ℕ → Option ℕ
response_advance zero = none
response_advance (suc n) = some n

-- `execute` with `chunk`.
unfoldable pub chunk_engine {ℓ} : {P : Type ℓ} → Engine P → Client P → Engine P
chunk_engine engine client = record {
  run = λ buffer p. engine.run buffer (client.restart p);
  has_error = engine.has_error;
  is_finished = engine.is_finished;
  content_length = engine.content_length;
}

-- The innermost loop: `left` bytes are read and appended, at most a buffer of them at a time. Each round that
-- does not end it reads a byte, so as many rounds as bytes are enough.
unfoldable pub recv_left {ℓ} :
    {W : Type ℓ} → (ℕ → W → Received × W) → ℕ → ℕ → ℕ → W → Option (List ℕ) × W
recv_left read size zero left w = (some [], w)
recv_left read size (suc fuel) zero w = (some [], w)
recv_left read size (suc fuel) (suc left) w =
    let (r, w') = read (min (suc left) size) w in
    elim r [
      | read_error len ↦ (none, w')
      | received bs ↦ elim (length bs == 0) [
        | true ↦ (none, w')
        | false ↦
            let (more, w'') = recv_left read size fuel (suc left - length bs) w' in
            elim more [ none ↦ (none, w'') | some rest ↦ (some (bs ++ rest), w'') ]
      ]
    ]

-- What the round has appended to the body and left in the buffer.
pub data Chunk {ℓ} (W : Type ℓ) : Type ℓ where
  chunk_read : (part : List ℕ) (buffer : List ℕ) (w : W) → Chunk W
  chunk_closed : (w : W) → Chunk W
  chunk_overrun : Chunk W

-- The part behind the head of a chunk of `n` bytes: `len -= 2`, which is negative on less than two bytes and is
-- then the size of what is appended; the bytes of the chunk that are in the buffer; and those to come.
unfoldable pub recv_chunk {ℓ} : {W : Type ℓ} → (ℕ → W → Received × W) → ℕ → ℕ → List ℕ → W → Chunk W
recv_chunk read size n buffer w = elim (leb 2 (length buffer)) [
  | false ↦ chunk_overrun
  | true ↦
      let len = length buffer - 2 in
      elim (leb n len) [
        | true ↦ chunk_read (take n buffer) (take (len - n) (drop n buffer)) w
        | false ↦
            let (more, w') = recv_left read size (n - len) (n - len) w in
            elim more [
              | none ↦ chunk_closed w'
              | some rest ↦ chunk_read (take len buffer ++ rest) [] w'
            ]
      ]
]

-- How the loop over the chunks ends: with the body and the parser, or as a head does.
pub data Chunks {ℓ κ} (P : Type ℓ) (W : Type κ) : Type (ℓ ⊔ κ) where
  chunks_read : (p : P) (body : List ℕ) (w : W) → Chunks P W
  chunks_closed : (w : W) → Chunks P W
  chunks_overrun chunks_unfinished : Chunks P W

-- The end of a round, with the body so far.
unfoldable pub after_chunk {ℓ κ} :
    {P : Type ℓ} {W : Type κ}
    → Client P
    → (List ℕ → List ℕ → P → W → Chunks P W)
    → List ℕ
    → P
    → Chunk W
    → Chunks P W
after_chunk client again body p (chunk_read part buffer w) = elim (client.chunks_done p) [
  | true ↦ chunks_read p (body ++ part) w
  | false ↦ again (body ++ part) buffer p w
]
after_chunk client again body p (chunk_closed w) = chunks_closed w
after_chunk client again body p chunk_overrun = chunks_overrun

-- The loop over the chunks, in `fuel` rounds, each of which reads the head of a chunk in `fuel` rounds.
unfoldable pub recv_chunks {ℓ κ} :
    {P : Type ℓ} {W : Type κ}
    → Engine P
    → Client P
    → (ℕ → W → Received × W)
    → ℕ
    → ℕ
    → ℕ
    → List ℕ
    → List ℕ
    → P
    → W
    → Chunks P W
recv_chunks engine client read size inner zero body buffer p w = chunks_unfinished
recv_chunks engine client read size inner (suc fuel) body buffer p w =
    elim (recv_head (chunk_engine engine client) response_advance read size inner buffer p w) [
      | head_closed w' ↦ chunks_closed w'
      | head_read p' left w' ↦
          after_chunk client (λ b l q v. recv_chunks engine client read size inner fuel b l q v)
            body p' (recv_chunk read size (client.content_len p') left w')
      | head_overrun ↦ chunks_overrun
      | head_unfinished ↦ chunks_unfinished
    ]

-- `setBody`.
unfoldable pub response_with {ℓ} : {W : Type ℓ} → HttpResponse → Body W → Result HttpResponse W
response_with response (no_body w) = message_received response w
response_with response (body_threw w) = resize_threw w
response_with response (body_closed w) = stream_closed w
response_with response (body_read bs w) = message_received (record response { body = bs }) w

unfoldable pub response_chunks {ℓ κ} :
    {P : Type ℓ} {W : Type κ} → (P → HttpResponse) → Chunks P W → Result HttpResponse W
response_chunks message (chunks_read p body w) =
    message_received (record (message p) { body = body }) w
response_chunks message (chunks_closed w) = stream_closed w
response_chunks message chunks_overrun = buffer_overrun
response_chunks message chunks_unfinished = fuel_spent

unfoldable pub recv_response {ℓ κ} :
    {P : Type ℓ} {W : Type κ}
    → Engine P
    → Client P
    → (P → HttpResponse)
    → P
    → (ℕ → Bool)
    → (ℕ → W → Received × W)
    → ℕ
    → ℕ
    → W
    → Result HttpResponse W
recv_response engine client message start resize read size fuel w =
    elim (recv_head engine response_advance read size fuel [] start w) [
      | head_closed w' ↦ stream_closed w'
      | head_read p left w' ↦ elim (client.chunked p) [
        | true ↦
            response_chunks message (recv_chunks engine client read size fuel fuel [] left p w')
        | false ↦
            response_with (message p) (recv_body resize read (engine.content_length p) left w')
      ]
      | head_overrun ↦ buffer_overrun
      | head_unfinished ↦ fuel_spent
    ]
