-- ===== src/Worker/Protocol.antt =====
-- worker/protocol.py (tea_asr/worker/protocol.py): the framing of requests and responses on the
-- worker's pipes. A stream is the list of the chunks that arrive; a read gives what is at hand, up to a
-- length, and nothing at the end. The text of a JSON value is a parameter.
pub mod Reading
pub mod Framing
mod Examples
use tea_asr_service.Prelude.{
  ℕ, zero, suc, ◌+◌, ◌-◌, ◌*◌, ◌/◌, ◌%◌, ◌≡◌, Bool, true, false, ◌||◌, not, Option, none, some,
  List, [], ◌∷◌, ◌++◌, ltb, leb, ◌==◌, if◌then◌else◌, length, take, drop, ℤ, pos, negsuc,
}

abbrev pub max_header_bytes : ℕ
max_header_bytes = 16384

abbrev pub max_response_bytes : ℕ
max_response_bytes = 1048576

abbrev pub max_pcm_bytes : ℕ
max_pcm_bytes = 960000

pub data Error : Type 0 where
  value_error eof_error out_of_fuel : Error

pub data Result {ℓ} (A : Type ℓ) : Type ℓ where
  ok : A → Result A
  raised : Error → Result A

infixl 5 ◌>>=◌
abbrev pub ◌>>=◌ {ℓ κ} : {A : Type ℓ} {B : Type κ} → Result A → (A → Result B) → Result B
ok a >>= f = f a
raised e >>= f = raised e

-- `json`: a value is read back from its text, whether or not the writer escapes what is not ASCII.
-- `pcm_bytes` is int(header.get("pcm_bytes", 0)).
pub record Json : Type 1 where
  pub Value : Type 0
  pub dumps : Value → List ℕ
  pub loads : List ℕ → Option Value
  pub pcm_bytes : Value → Option ℤ
  pub loads-dumps : (v : Value) → loads (dumps v) ≡ some v

-- struct.pack(">I")
unfoldable pub pack : ℕ → List ℕ
pack n = n / 16777216 % 256 ∷ n / 65536 % 256 ∷ n / 256 % 256 ∷ n % 256 ∷ []

-- struct.unpack(">I")
unfoldable pub unpack : List ℕ → ℕ
unpack (a ∷ b ∷ c ∷ d ∷ []) = ((a * 256 + b) * 256 + c) * 256 + d
unpack bytes = 0

abbrev pub Stream : Type 0
Stream = List (List ℕ)

-- stream.read(length)
unfoldable pub read : ℕ → Stream → List ℕ × Stream
read n [] = ([], [])
read n (chunk ∷ stream) =
    if leb (length chunk) n then (chunk, stream) else (take n chunk, drop n chunk ∷ stream)

next_chunk :
    (List ℕ → Stream → Result (List ℕ × Stream))
    → List ℕ
    → List ℕ × Stream
    → Result (List ℕ × Stream)
next_chunk loop chunks ([], stream) = raised eof_error
next_chunk loop chunks (b ∷ chunk, stream) = loop (chunks ++ b ∷ chunk) stream

-- The loop, with fuel for the reads
unfoldable pub read_loop : ℕ → ℕ → List ℕ → Stream → Result (List ℕ × Stream)
unfolding next_chunk read
read_loop zero n chunks stream = raised out_of_fuel
read_loop (suc fuel) n chunks stream =
    let more = next_chunk (read_loop fuel n) chunks (read (n - length chunks) stream) in
    if ltb (length chunks) n then more else ok (chunks, stream)

-- Each read brings a byte, so `n` reads are enough, and one more test.
unfoldable pub read_exact : Stream → ℕ → Result (List ℕ × Stream)
unfolding read_loop
read_exact stream n = read_loop (suc n) n [] stream

module _ (json : Json) where
  open json use {Value, dumps, loads, pcm_bytes}

  unfoldable pub encode_message : Value → Result (List ℕ)
  encode_message payload =
      if ltb max_response_bytes (length (dumps payload))
      then raised value_error
      else ok (pack (length (dumps payload)) ++ dumps payload)

  parsed : List ℕ × Stream → Result (Value × Stream)
  parsed (text, stream) = elim (loads text) [ none ↦ raised value_error | some v ↦ ok (v, stream) ]

  response_of : ℕ → Stream → Result (Value × Stream)
  unfolding parsed
  response_of size stream =
      if ltb max_response_bytes size
      then raised value_error
      else (read_exact stream size >>= parsed)

  unfoldable pub read_response : Stream → Result (Value × Stream)
  unfolding response_of
  read_response stream = do
    (prefix, stream') ← read_exact stream 4
    response_of (unpack prefix) stream'

  with_pcm : Value → Stream → Option ℤ → Result (Value × List ℕ × Stream)
  with_pcm header stream none = raised value_error
  with_pcm header stream (some (negsuc k)) = raised value_error
  with_pcm header stream (some (pos n)) =
      if ltb max_pcm_bytes n || not (n % 2 == 0)
      then raised value_error
      else (do (pcm, stream') ← read_exact stream n; ok (header, pcm, stream'))

  request_of : ℕ → Stream → Result (Value × List ℕ × Stream)
  unfolding parsed with_pcm
  request_of size stream =
      let rest = (do
        (header, stream') ← (read_exact stream size >>= parsed)
        with_pcm header stream' (pcm_bytes header)) in
      if ltb max_header_bytes size then raised value_error else rest

  unfoldable pub read_request : Stream → Result (Value × List ℕ × Stream)
  unfolding request_of
  read_request stream = do
    (prefix, stream') ← read_exact stream 4
    request_of (unpack prefix) stream'

  -- What `_exchange` of worker/supervisor.py writes
  unfoldable pub write_request : Value → List ℕ → Result (List ℕ)
  write_request request pcm =
      if ltb max_header_bytes (length (dumps request))
      then raised value_error
      else ok (pack (length (dumps request)) ++ (dumps request ++ pcm))
