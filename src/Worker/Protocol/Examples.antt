-- ===== src/Worker/Protocol/Examples.antt =====
-- The framing of tea_asr/worker/protocol.py on short messages, and its theorems there.
use tea_asr_service.Prelude.{ℕ, ◌≡◌, refl, Option, none, some, List, [], ◌∷◌, arith, pos}
use tea_asr_service.Worker.Protocol.{
  Json, ok, raised, value_error, eof_error, Stream, read_exact, encode_message, read_response,
  read_request, write_request, pack, unpack,
}
use tea_asr_service.Worker.Protocol.Reading.{flat, Arrives, read_exact-HasRead}
use tea_asr_service.Worker.Protocol.Framing.{
  read_response-encode_message, read_request-write_request,
}

abbrev loads_number : List ℕ → Option ℕ
loads_number (n ∷ []) = some n
loads_number _ = none

-- Of one number, which is the length of the PCM
abbrev numbers : Json
numbers = record {
  Value = ℕ;
  dumps = λ n. n ∷ [];
  loads = loads_number;
  pcm_bytes = λ n. some (pos n);
  loads-dumps = λ n. refl;
}

-- A request of two bytes of PCM, and one byte of what follows, in three chunks
abbrev chunks : Stream
chunks = (0 ∷ 0 ∷ []) ∷ (0 ∷ 1 ∷ 2 ∷ 7 ∷ []) ∷ (8 ∷ 9 ∷ []) ∷ []

-- A header that is not a number, and a pipe that ends in a message, are errors.
fails :
    (read_response numbers ((0 ∷ 0 ∷ 0 ∷ 2 ∷ 5 ∷ 5 ∷ []) ∷ []) ≡ raised value_error)
    × (read_response numbers ((0 ∷ 0 ∷ 0 ∷ 2 ∷ 5 ∷ []) ∷ []) ≡ raised eof_error)
unfolding read_response read_exact unpack
fails = (refl, refl)

read_exact-HasRead_example :
    (rest : Stream) × (read_exact chunks 5 ≡ ok (0 ∷ 0 ∷ 0 ∷ 1 ∷ 2 ∷ [], rest))
    × (flat rest ≡ 7 ∷ 8 ∷ 9 ∷ [])
    × Arrives rest
read_exact-HasRead_example =
    read_exact-HasRead chunks 5 (omega arith, (omega arith, (omega arith, tt))) (omega arith)

read_response-encode_message_example :
    (rest : Stream) × (read_response numbers chunks ≡ ok (2, rest))
    × (flat rest ≡ 7 ∷ 8 ∷ 9 ∷ [])
    × Arrives rest
unfolding encode_message pack
read_response-encode_message_example =
    read_response-encode_message numbers 2 (0 ∷ 0 ∷ 0 ∷ 1 ∷ 2 ∷ []) (7 ∷ 8 ∷ 9 ∷ []) chunks refl
      (omega arith, (omega arith, (omega arith, tt))) refl

read_request-write_request_example :
    (rest : Stream) × (read_request numbers chunks ≡ ok (2, 7 ∷ 8 ∷ [], rest))
    × (flat rest ≡ 9 ∷ [])
    × Arrives rest
unfolding write_request pack
read_request-write_request_example =
    read_request-write_request numbers 2 (7 ∷ 8 ∷ []) (0 ∷ 0 ∷ 0 ∷ 1 ∷ 2 ∷ 7 ∷ 8 ∷ []) (9 ∷ [])
      chunks refl refl (omega arith) (omega arith) (omega arith, (omega arith, (omega arith, tt)))
      refl
