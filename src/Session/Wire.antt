-- ===== src/Session/Wire.antt =====
-- The bytes on a socket: a length of four bytes, the highest first, and a serialized message. The
-- session reads such messages one after the other and answers each.
use stock_app.Common.{
  ℕ, zero, suc, ◌+◌, ◌*◌, ◌/◌, ◌%◌, ◌^◌, ◌≡◌, ◌≤◌, ◌<◌, refl, Bool, true, false, Option, none, some,
  List, [], ◌∷◌, ◌++◌, length, length-append, arith, eqb, All, Bool-cases, inl, inr, if◌then◌else◌,
}
use stock_app.Proto.{TradeRequest}
use stock_app.Database.{Void}
use stock_app.Platform.{Platform}
use stock_app.Auth.{Jwt}
use stock_app.Core.Loop.{Books}
use stock_app.Session.State.{Session, Server, continue_with}
use stock_app.Session.Manager.{close_this_session}
use stock_app.Session.Handler.{answer}

-- What protoc generates for a request: SerializeToString and ParseFromArray.
pub record Codec : Type 0 where
  pub serialize : TradeRequest → List ℕ
  pub parse : List ℕ → TradeRequest

-- The request comes back of its bytes, and their number fits a uint32_t.
abbrev pub IsSendable : Codec → TradeRequest → Type 0
IsSendable codec r = (length (codec.serialize r) < 2 ^ 32) × (codec.parse (codec.serialize r) ≡ r)

-- `htonl(static_cast<uint32_t>(size))` in memory, and `ntohl` of four bytes.
unfoldable pub htonl_bytes : ℕ → List ℕ
htonl_bytes n = n / 2 ^ 24 % 2 ^ 8 ∷ n / 2 ^ 16 % 2 ^ 8 ∷ n / 2 ^ 8 % 2 ^ 8 ∷ n % 2 ^ 8 ∷ []

abbrev pub ntohl : ℕ → ℕ → ℕ → ℕ → ℕ
ntohl a b c d = 2 ^ 24 * a + 2 ^ 16 * b + 2 ^ 8 * c + d

-- The two buffers that are written.
unfoldable pub frame : List ℕ → List ℕ
frame message = htonl_bytes (length message) ++ message

-- boost::asio::async_read of a number of bytes: `none` is an error, as the end of the stream.
unfoldable pub read_bytes : ℕ → List ℕ → Option (List ℕ × List ℕ)
read_bytes zero incoming = some ([], incoming)
read_bytes (suc n) [] = none
read_bytes (suc n) (x ∷ incoming) = elim (read_bytes n incoming) [
  | none ↦ none
  | some (xs, rest) ↦ some (x ∷ xs, rest)
]

-- The length, then so many bytes.
unfoldable pub read_frame : List ℕ → Option (List ℕ × List ℕ)
read_frame (a ∷ b ∷ c ∷ d ∷ incoming) = read_bytes (ntohl a b c d) incoming
read_frame incoming = none

read_bytes-length :
    (message rest : List ℕ) → read_bytes (length message) (message ++ rest) ≡ some (message, rest)
unfolding read_bytes
read_bytes-length [] rest = refl
read_bytes-length (x ∷ message) rest = rw (read_bytes-length message rest) refl

ntohl-htonl :
    (n : ℕ)
    → n < 2 ^ 32
    → ntohl (n / 2 ^ 24 % 2 ^ 8) (n / 2 ^ 16 % 2 ^ 8) (n / 2 ^ 8 % 2 ^ 8) (n % 2 ^ 8) ≡ n
ntohl-htonl n h = omega (arith, h)

read_frame-nil : read_frame [] ≡ none
unfolding read_frame
read_frame-nil = refl

read_frame-frame :
    (message rest : List ℕ)
    → length message < 2 ^ 32
    → read_frame (frame message ++ rest) ≡ some (message, rest)
unfolding read_frame frame htonl_bytes
read_frame-frame message rest h =
    rw (ntohl-htonl (length message) h) (read_bytes-length message rest)

unfoldable pub is_closed : Session → List Session → Bool
is_closed i [] = false
is_closed i (j ∷ rest) = if eqb i j then true else is_closed i rest

module _ (codec : Codec) where
  -- What a client writes for its requests.
  abbrev pub written_bytes : List TradeRequest → List ℕ
  written_bytes [] = []
  written_bytes (request ∷ rest) = frame (codec.serialize request) ++ written_bytes rest

  -- Every request takes some bytes.
  requests_fit : (requests : List TradeRequest) → length requests ≤ length (written_bytes requests)
  unfolding frame htonl_bytes
  requests_fit [] = omega arith
  requests_fit (request ∷ rest) =
      let bytes = codec.serialize request in
      omega (arith, requests_fit rest, length-append bytes (written_bytes rest))

module _ {p : Platform} {b : Books} (codec : Codec) (jwt : Jwt) (self : Session) where
  -- The end of async_write: an error, which a closed socket gives, closes the session.
  unfoldable pub after_write : Server p b → Server p b
  after_write s = if is_closed self s.closed then close_this_session self s else s

  -- async_read_data_from_socket, and what its handlers start, on the bytes that arrive before the other
  -- side closes. `none` is an exception that leaves a handler. The fuel is the number of bytes.
  unfoldable pub async_read_data_from_socket : ℕ → List ℕ → Server p b → Option Void × Server p b
  async_read_data_from_socket zero incoming s = (some tt, s)
  async_read_data_from_socket (suc fuel) incoming s = elim (is_closed self s.closed) [
    | true ↦ (some tt, close_this_session self s)
    | false ↦ elim (read_frame incoming) [
      | none ↦ (some tt, close_this_session self s)
      | some (message, rest) ↦
          continue_with (answer jwt self (codec.parse message) s)
            (λ _ s'. async_read_data_from_socket fuel rest (after_write s'))
    ]
  ]

  -- The same without the bytes: the requests are answered one after the other until the socket is
  -- closed, and then the session is closed.
  unfoldable pub answer_all : List TradeRequest → Server p b → Option Void × Server p b
  answer_all [] s = (some tt, close_this_session self s)
  answer_all (request ∷ rest) s = elim (is_closed self s.closed) [
    | true ↦ (some tt, close_this_session self s)
    | false ↦ continue_with (answer jwt self request s) (λ _ s'. answer_all rest (after_write s'))
  ]

  continue_same :
      {A B : Type 0} (r : Option A × Server p b) (f g : A → Server p b → Option B × Server p b)
      → ((a : A) (s : Server p b) → f a s ≡ g a s)
      → continue_with r f ≡ continue_with r g
  continue_same (none, s) f g h = refl
  continue_same (some a, s) f g h = h a s

  serve_rest :
      (requests : List TradeRequest) (fuel : ℕ) (s : Server p b)
      → length requests < fuel
      → All (IsSendable codec) requests
      → async_read_data_from_socket fuel (written_bytes codec requests) s ≡ answer_all requests s
  unfolding async_read_data_from_socket answer_all
  serve_rest requests zero s h small = absurd (omega (arith, h))
  serve_rest [] (suc fuel) s h small = elim (Bool-cases (is_closed self s.closed)) [
    | inl e ↦ rw (async_read_data_from_socket, e) refl
    | inr e ↦ rw (async_read_data_from_socket, e, read_frame-nil) refl
  ]
  serve_rest (request ∷ rest) (suc fuel) s h small = elim (Bool-cases (is_closed self s.closed)) [
    | inl e ↦ rw (async_read_data_from_socket, answer_all, e) refl
    | inr e ↦
        rw
          (
            async_read_data_from_socket,
            answer_all,
            e,
            read_frame-frame (codec.serialize request) (written_bytes codec rest) small.0.0,
            small.0.1,
          )
          (continue_same _ _ _
            (λ _ s'. serve_rest rest fuel (after_write s') (omega (arith, h)) small.1))
  ]

  -- A session that reads the bytes which a client writes for its requests, each of less than 2^32 bytes
  -- of which the request is parsed again, does what it does on the requests themselves: it answers them in their order until its socket is
  -- closed, closes when they end, and has the state that this leaves, exceptions included.
  pub async_read_data_from_socket_lem :
      (requests : List TradeRequest) (s : Server p b)
      → All (IsSendable codec) requests
      → async_read_data_from_socket
          (suc (length (written_bytes codec requests)))
          (written_bytes codec requests)
          s
        ≡ answer_all requests s
  async_read_data_from_socket_lem requests s small =
      serve_rest requests (suc (length (written_bytes codec requests))) s
        (omega (arith, requests_fit codec requests)) small
