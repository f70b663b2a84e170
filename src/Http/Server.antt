-- ===== src/Http/Server.antt =====
-- `HttpServer::handleClient` of saturn/http/http_server.cc: the loop over the requests of a session. The
-- receiving of a request, the servlets and the sending of a response are parameters here; saturn.Http.Receive,
-- saturn.Servlet and saturn.Http.Requests model those of the server.
use saturn.Base.{ℕ, zero, suc, Bool, true, false, not, ◌||◌, List, [], ◌∷◌, bytes}
use saturn.Http.Messages.{HttpRequest, HttpResponse, new_response, set_response_header}
use saturn.Http.Receive.{
  Result, message_received, stream_closed, resize_threw, buffer_overrun, fuel_spent,
}

-- What a session calls, over its states: `recvRequest`, the servlets by `m_dispatch->handle`, `sendResponse`
-- and `close`; `memory` is what `m_websocket` of a new response holds.
pub record Session {ℓ} (W : Type ℓ) : Type ℓ where
  pub receive : W → Result HttpRequest W
  pub handle : HttpRequest → HttpResponse → HttpResponse
  pub send : HttpResponse → W → ℕ × W
  pub close : W → W
  pub memory : Bool

-- A request and the response that is sent for it.
abbrev pub Exchange : Type 0
Exchange = HttpRequest × HttpResponse

-- How the loop ends: with the session closed, left by an exception, or as the receiving of a request does that does not return.
pub data Handled {ℓ} (W : Type ℓ) : Type ℓ where
  session_closed : (served : List Exchange) (w : W) → Handled W
  session_left : (served : List Exchange) (w : W) → Handled W
  not_returned : (served : List Exchange) → Handled W

unfoldable pub served_first {ℓ} : {W : Type ℓ} → Exchange → Handled W → Handled W
served_first x (session_closed served w) = session_closed (x ∷ served) w
served_first x (session_left served w) = session_left (x ∷ served) w
served_first x (not_returned served) = not_returned (x ∷ served)

-- The response to a request, with the server's name.
unfoldable pub answer {ℓ} : {W : Type ℓ} → Session W → List ℕ → Bool → HttpRequest → HttpResponse
answer session name keepalive req = session.handle req (
    set_response_header (bytes "Server") name
      (new_response session.memory req.version (req.close || not keepalive)))

-- The loop, in `fuel` rounds.
unfoldable pub handle_client {ℓ} : {W : Type ℓ} → Session W → List ℕ → Bool → ℕ → W → Handled W
handle_client session name keepalive zero w = not_returned []
handle_client session name keepalive (suc fuel) w = elim (session.receive w) [
  | message_received req w' ↦
      let rsp = answer session name keepalive req in
      let w'' = (session.send rsp w').1 in
      elim (not keepalive || req.close) [
        | true ↦ session_closed ((req, rsp) ∷ []) (session.close w'')
        | false ↦ served_first (req, rsp) (handle_client session name keepalive fuel w'')
      ]
  | stream_closed w' ↦ session_closed [] (session.close w')
  | resize_threw w' ↦ session_left [] w'
  | buffer_overrun ↦ not_returned []
  | fuel_spent ↦ not_returned []
]
