-- ===== src/Tests/Receives.antt =====
-- The messages of saturn/http/http_session.cc and saturn/http/http_connection.cc over a stream that passes two
-- bytes at most.
use saturn.Base.{
  ℕ, suc, ◌^◌, ◌<◌, ◌≡◌, refl, Bool, true, false, none, some, List, [], ◌∷◌, ◌++◌, bytes, length,
  ◌==◌, if◌then◌else◌, arith,
}
use saturn.Stream.{read_fix_size, read_fix_loop}
use saturn.Tests.Streams.{read_two, read_two-IsReader, write_two, write_two-IsWriter}
use saturn.Http.{http_method_to_string, method_string}
use saturn.Http.Fields.{find, same_key}
use saturn.Http.Messages.{
  HttpRequest, new_request, init, dump_request, dump_request_line, dump_version, dump_connection,
  dump_headers, dump_body,
}
use saturn.Http.Receive.{
  Engine, recv_head, after_read, after_parse, recv_body, not_positive, request_advance, after_head,
  request_with, recv_request, message_received, stream_closed,
}
use saturn.Http.Chunks.{recv_chunk, chunk_read}
use saturn.Http.ChunkLaws.{recv_chunk-split}
use saturn.Http.Requests.{Uri, host_key, request_for, Dialer, do_request, result_of}
use saturn.Http.RequestLaws.{gives_host, last_value, request_for-find, dialled, do_request-written}
use saturn.Http.Server.{Session}

-- A parser that takes a byte at a time, up to the first '!'.
abbrev take_one : List ℕ → Bool → Bool × ℕ
take_one [] p = (p, 0)
take_one (c ∷ cs) p = (c == b'!', 1)

abbrev engine : Engine Bool
engine = record {
  run = take_one;
  has_error = λ p. false;
  is_finished = λ p. p;
  content_length = λ p. 3;
}

abbrev request : Bool → HttpRequest
unfolding new_request
request p = new_request 0x11 true

abbrev incoming : List ℕ
incoming = bytes "a!xyz?"

-- The body is what stands behind the head, as far as the length says.
recv_request_run :
    recv_request engine request false (λ n. true) read_two 8 7 incoming
    ≡ message_received (init (record (request true) { body = bytes "xyz" })) (bytes "?")
unfolding recv_request after_head request_with recv_body not_positive recv_head after_read
    after_parse request_advance read_fix_size read_fix_loop
recv_request_run = refl

-- The chunk is "hello": what is appended has lost two of its bytes.
recv_chunk-split_example :
    (rest : List ℕ) × (w' : List ℕ) × (recv_chunk read_two 8 5 (bytes "hel") (bytes "lo-=")
      ≡ chunk_read (bytes "h" ++ rest) [] w')
    × (length (bytes "h" ++ rest) ≡ 5)
    × (bytes "lo-=" ≡ rest ++ w')
recv_chunk-split_example =
    recv_chunk-split (λ w. w) read_two 8 5 (bytes "hel") (bytes "lo-=") read_two-IsReader
      (omega arith) (omega arith) (omega arith) (omega arith)

abbrev uri : Uri
uri = record { path = bytes "/a"; query = []; fragment = []; host = bytes "b" }

abbrev given : List (List ℕ × List ℕ)
given = (bytes "Accept", bytes "c") ∷ (bytes "connection", bytes "close") ∷ (bytes "host", []) ∷ []

request_for-find_example : find (bytes "HOST") (request_for 1 uri given []).headers ≡ (
    if gives_host given false
    then last_value (bytes "HOST") given none
    else if same_key (bytes "HOST") host_key
    then some (bytes "b")
    else last_value (bytes "HOST") given none)
request_for-find_example = request_for-find 1 uri given [] (bytes "HOST")

abbrev dial : Dialer (List ℕ)
dial = record {
  create_address = λ w. (true, w);
  create_tcp = λ w. (true, w);
  connect = λ w. (true, w);
  set_recv_timeout = λ ms w. w;
}

short : length (dump_request (request true)) < 2 ^ 31
unfolding dump_request dump_request_line dump_version dump_connection dump_headers dump_body
    http_method_to_string method_string new_request
short = omega arith

do_request-written_example :
    (w' : List ℕ) × (do_request dial write_two (λ w. stream_closed w) 100 (request true) []
      ≡ result_of (stream_closed w'))
    × (w' ≡ dialled dial 100 [] ++ dump_request (request true))
do_request-written_example =
    do_request-written dial write_two (λ w. stream_closed w) (λ w. w) 100 (request true) []
      write_two-IsWriter (refl, refl, refl) short

abbrev session : Session (List ℕ)
session = record {
  receive = λ w. recv_request engine request false (λ n. true) read_two 8 (suc (length w)) w;
  handle = λ req rsp. rsp;
  send = λ rsp w. (1, w);
  close = λ w. w;
  memory = false;
}
