-- ===== src/Http/ServerLaws.antt =====
-- That `handleClient` of saturn/http/http_server.cc over `recvRequest` ends, and what it has served then.
use saturn.Base.{ℕ, ◌<◌, ◌≡◌, Bool, true, false, not, ◌||◌, List, [], ◌∷◌, length}
use saturn.Http.Messages.{HttpRequest, HttpResponse}
use saturn.Http.Receive.{Result, message_received, stream_closed, resize_threw}
use saturn.Http.Server.{Session, Exchange, Handled, session_closed, session_left, answer}

module _ {ℓ} {W : Type ℓ} (session : Session W) (name : List ℕ) (keepalive : Bool)
    (contents : W → List ℕ) where
  -- The exchanges that follow a state, the state at the end, and whether an exception has led there: the session
  -- gives a request, whose answer is sent, and goes on from there or is closed by then, or it gives none and is
  -- closed, or receiving throws.
  pub data IsServed : W → List Exchange → Bool → W → Type ℓ where
    none_served :
        (w w' : W) → session.receive w ≡ stream_closed w' → IsServed w [] false (session.close w')
    thrown : (w w' : W) → session.receive w ≡ resize_threw w' → IsServed w [] true w'
    last_served :
        (w w' : W) (req : HttpRequest)
        → session.receive w ≡ message_received req w'
        → (not keepalive || req.close) ≡ true
        → IsServed w
            ((req, answer session name keepalive req) ∷ [])
            false
            (session.close (session.send (answer session name keepalive req) w').1)
    more_served :
        (w w' : W) (req : HttpRequest) (served : List Exchange) (threw : Bool) (final : W)
        → session.receive w ≡ message_received req w'
        → keepalive ≡ true
        → req.close ≡ false
        → IsServed (session.send (answer session name keepalive req) w').1 served threw final
        → IsServed w ((req, answer session name keepalive req) ∷ served) threw final

  -- The loop has closed the session or was left by the exception, and has served so from `start` on.
  pub data IsHandled : W → Handled W → Type ℓ where
    handled :
        (start w : W) (served : List Exchange)
        → IsServed start served false w
        → IsHandled start (session_closed served w)
    left :
        (start w : W) (served : List Exchange)
        → IsServed start served true w
        → IsHandled start (session_left served w)

  -- The receiving of a request closes the session, or throws, or gives one and leaves less to come, which the
  -- sending of a response does not change.
  data Proceeds : W → Result HttpRequest W → Type ℓ where
    closes : (w w' : W) → Proceeds w (stream_closed w')
    throws : (w w' : W) → Proceeds w (resize_threw w')
    gives :
        (w w' : W) (req : HttpRequest)
        → ((rsp : HttpResponse) → length (contents (session.send rsp w').1) < length (contents w))
        → Proceeds w (message_received req w')
