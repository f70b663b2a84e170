-- ===== src/Http/BodyLaws.antt =====
-- What `recvRequest` of saturn/http/http_session.cc returns.
use saturn.Base.{
  ℕ, ◌-◌, ◌^◌, ◌%◌, ◌≤◌, ◌<◌, ◌≡◌, ◌⊎◌, ap, Bool, true, false, List, [], ◌++◌, length, take, drop,
  arith, length-drop,
}
use saturn.Stream.{Received}
use saturn.Http.Messages.{HttpRequest, init}
use saturn.Http.Receive.{
  Engine, head_closed, head_read, resize_threw, buffer_overrun, fuel_spent, not_positive,
  request_advance, Result, message_received, stream_closed,
}
use saturn.Http.BodyReads.{IsLength}
use saturn.Http.HeadLaws.{Parses}

-- The call has ended, inside the buffer.
abbrev pub Returned {ℓ} : {W : Type ℓ} → Result HttpRequest W → Type 0
Returned (message_received m w) = Unit {0}
Returned (stream_closed w) = Unit {0}
Returned (resize_threw w) = Unit {0}
Returned buffer_overrun = ⊥
Returned fuel_spent = ⊥

module _ {ℓ κ} {P : Type κ} {W : Type ℓ} (engine : Engine P) (message : P → HttpRequest)
    (contents : W → List ℕ) (size : ℕ) (resize : ℕ → Bool) (read : ℕ → W → Received × W) where
  -- The result, by the parser's state at the end of the head, the bytes behind the head that are in the buffer, and
  -- the stream, which has those that come after them.
  pub data IsRequest (p : P) (left : List ℕ) (v : W) : Result HttpRequest W → Type ℓ where
    without_body :
        (w : W)
        → (engine.content_length p ≡ 0) ⊎ (2 ^ 63 ≤ engine.content_length p)
        → contents w ≡ contents v
        → IsRequest p left v (message_received (init (message p)) w)
    with_body :
        (bs : List ℕ) (w : W)
        → IsLength (engine.content_length p)
        → resize (engine.content_length p) ≡ true
        → engine.content_length p ≤ length (left ++ contents v)
        → bs ≡ take (engine.content_length p) (left ++ contents v)
        → contents w ≡ drop (engine.content_length p - length left) (contents v)
        → IsRequest p left v (message_received (init (record (message p) { body = bs })) w)
    too_short :
        (w : W)
        → IsLength (engine.content_length p)
        → resize (engine.content_length p) ≡ true
        → (length (left ++ contents v) < engine.content_length p)
          ⊎ (not_positive ((engine.content_length p - length left) % 2 ^ 32) ≡ true)
        → IsRequest p left v (stream_closed w)
    too_long :
        (w : W)
        → IsLength (engine.content_length p)
        → resize (engine.content_length p) ≡ false
        → IsRequest p left v (resize_threw w)

  -- What a call from the stream `w` on returns. The head takes the first of the bytes that were to come, and one at
  -- least has been read; or the rounds of the head return nothing.
  pub data IsReceived (start : P) (w : W) : Result HttpRequest W → Type (ℓ ⊔ κ) where
    head_refused :
        (v : W)
        → Parses engine request_advance read size [] start w (head_closed v)
        → IsReceived start w (stream_closed v)
    head_parsed :
        (p : P) (taken left : List ℕ) (v : W) (r : Result HttpRequest W)
        → Parses engine request_advance read size [] start w (head_read p left v)
        → contents w ≡ taken ++ (left ++ contents v)
        → length left < size
        → length (contents v) < length (contents w)
        → IsRequest p left v r
        → IsReceived start w r

  -- A request that has been received leaves fewer bytes to come.
  pub IsReceived-shorter :
      (start : P) (w : W) (m : HttpRequest) (v : W)
      → IsReceived start w (message_received m v)
      → length (contents v) < length (contents w)
  IsReceived-shorter start w m v (head_parsed p taken left u _ runs e short few r) =
      let kept = IsRequest-later p left u m v r in omega (arith, kept, few)
    where
      IsRequest-later :
          (p : P) (left : List ℕ) (u : W) (m : HttpRequest) (v : W)
          → IsRequest p left u (message_received m v)
          → length (contents v) ≤ length (contents u)
      IsRequest-later p left u _ v (without_body _ n e) = omega (arith, ap length e)
      IsRequest-later p left u _ v (with_body bs _ l y n e e') =
          omega
            (arith, ap length e', length-drop (engine.content_length p - length left) (contents u))

  IsRequest-Returned :
      (p : P) (left : List ℕ) (v : W) (r : Result HttpRequest W) → IsRequest p left v r → Returned r
  IsRequest-Returned p left v _ (without_body w n e) = tt
  IsRequest-Returned p left v _ (with_body bs w l y n e e') = tt
  IsRequest-Returned p left v _ (too_short w l y s) = tt
  IsRequest-Returned p left v _ (too_long w l y) = tt

  pub IsReceived-Returned :
      (start : P) (w : W) (r : Result HttpRequest W) → IsReceived start w r → Returned r
  IsReceived-Returned start w _ (head_refused v runs) = tt
  IsReceived-Returned start w _ (head_parsed p taken left v r runs e s f q) =
      IsRequest-Returned p left v r q
