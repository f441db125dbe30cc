-- ===== src/Worker/Protocol/Framing.antt =====
-- The messages of worker/protocol.py (tea_asr/worker/protocol.py), from one side of a pipe to the other.
use tea_asr_service.Prelude.{
  ℕ, ◌%◌, ◌≤◌, ◌<◌, ◌≡◌, refl, sym, ap, ◌∙◌, inl, inr, false, Bool-cases, ◌||◌, not, some, List, [],
  ◌∷◌, ◌++◌, append_assoc, arith, ltb, ◌==◌, length, take, drop, length-append, take-append, pos,
}
use tea_asr_service.Worker.Protocol.{
  max_header_bytes, max_response_bytes, max_pcm_bytes, Result, ok, ◌>>=◌, Json, pack, unpack,
  Stream, read_exact, encode_message, parsed, response_of, read_response, with_pcm, request_of,
  read_request, write_request,
}
use tea_asr_service.Worker.Protocol.Reading.{flat, Arrives, read_exact-HasRead}

unpack-pack : (n : ℕ) → n < 4294967296 → unpack (pack n) ≡ n
unfolding unpack pack
unpack-pack n lt = omega arith

take_all : (xs : List ℕ) → take (length xs) xs ≡ xs
take_all [] = refl
take_all (x ∷ xs) = ap (λ ys. x ∷ ys) (take_all xs)

drop_all : (xs ys : List ℕ) → drop (length xs) (xs ++ ys) ≡ ys
drop_all [] ys = refl
drop_all (x ∷ xs) ys = drop_all xs ys

-- Reading the head of what is left
read_head :
    (stream : Stream) (head more : List ℕ)
    → Arrives stream
    → flat stream ≡ head ++ more
    → (rest : Stream) × (read_exact stream (length head) ≡ ok (head, rest))
      × (flat rest ≡ more)
      × Arrives rest
read_head stream head more a e =
    let size = length-append {0} head more in
    let whole = ap (λ (xs : List ℕ). length xs) e in
    let (rest, result, left, a') =
      read_exact-HasRead stream (length head) a (omega (arith, size, whole)) in
    let all : take (length head) (flat stream) ≡ head =
      ap (take (length head)) e
      ∙ take-append (length head) head more (omega arith)
      ∙ take_all head in
    (
      rest,
      result ∙ ap (λ xs. ok (xs, rest)) all,
      left ∙ ap (drop (length head)) e ∙ drop_all head more,
      a',
    )

-- The length that was packed is the one that is read on with.
after_prefix :
    {A : Type 0} (f : ℕ → Stream → Result A) (stream : Stream) (prefix : List ℕ) (rest : Stream)
    (n : ℕ)
    → read_exact stream 4 ≡ ok (prefix, rest)
    → unpack prefix ≡ n
    → (read_exact stream 4 >>= λ (q : List ℕ × Stream). f (unpack q.0) q.1) ≡ f n rest
after_prefix f stream prefix rest n e u =
    ap (λ r. r >>= λ (q : List ℕ × Stream). f (unpack q.0) q.1) e ∙ ap (λ k. f k rest) u

module _ (json : Json) where
  open json use {Value, dumps, loads, pcm_bytes, loads-dumps}

  parsed-dumps : (v : Value) (rest : Stream) → parsed json (dumps v, rest) ≡ ok (v, rest)
  unfolding parsed
  parsed-dumps v rest = rw (parsed, loads-dumps v) refl

  response_of-dumps :
      (v : Value) (stream : Stream) (more : List ℕ)
      → length (dumps v) ≤ max_response_bytes
      → Arrives stream
      → flat stream ≡ dumps v ++ more
      → (rest : Stream) × (response_of json (length (dumps v)) stream ≡ ok (v, rest))
        × (flat rest ≡ more)
        × Arrives rest
  unfolding response_of
  response_of-dumps v stream more small a e =
      let (rest, result, left, a') = read_head stream (dumps v) more a e in
      let fits : ltb max_response_bytes (length (dumps v)) ≡ false = ground arith in
      (rest, rw fits (ap (λ r. r >>= parsed json) result ∙ parsed-dumps v rest), left, a')

  -- What `encode_message` writes, `read_response` reads back whole, however the pipe cuts it up, and it
  -- leaves on the pipe exactly what was written behind it.
  pub read_response-encode_message :
      (payload : Value) (bytes more : List ℕ) (stream : Stream)
      → encode_message json payload ≡ ok bytes
      → Arrives stream
      → flat stream ≡ bytes ++ more
      → (rest : Stream) × (read_response json stream ≡ ok (payload, rest))
        × (flat rest ≡ more)
        × Arrives rest
  unfolding encode_message read_response pack
  read_response-encode_message payload bytes more stream e a f =
      elim (Bool-cases (ltb max_response_bytes (length (dumps payload)))) [
        | inl long ↦ ground (arith, e, long)
        | inr fits ↦
            let n = length (dumps payload) in
            let small : n ≤ max_response_bytes = ground arith in
            let same : pack n ++ dumps payload ≡ bytes = ground (arith, e, fits) in
            let (rest, result, left, a') =
              read_head stream (pack n) (dumps payload ++ more) a (
                f
                ∙ ap (λ xs. xs ++ more) (sym same)
                ∙ append_assoc (pack n) (dumps payload) more) in
            let (rest', result', left', a'') = response_of-dumps payload rest more small a' left in
            (
              rest',
              after_prefix (response_of json) stream (pack n) rest n result
                    (unpack-pack n (omega arith))
                  ∙ result',
              left',
              a'',
            )
      ]

  request_of-dumps :
      (v : Value) (pcm : List ℕ) (stream : Stream) (more : List ℕ)
      → length (dumps v) ≤ max_header_bytes
      → pcm_bytes v ≡ some (pos (length pcm))
      → length pcm ≤ max_pcm_bytes
      → length pcm % 2 ≡ 0
      → Arrives stream
      → flat stream ≡ dumps v ++ (pcm ++ more)
      → (rest : Stream) × (request_of json (length (dumps v)) stream ≡ ok (v, pcm, rest))
        × (flat rest ≡ more)
        × Arrives rest
  unfolding request_of with_pcm
  request_of-dumps v pcm stream more small counted short even a e =
      let (rest, result, left, a') = read_head stream (dumps v) (pcm ++ more) a e in
      let (rest', result', left', a'') = read_head rest pcm more a' left in
      let fits : ltb max_header_bytes (length (dumps v)) ≡ false = ground arith in
      let checked : (ltb max_pcm_bytes (length pcm) || not (length pcm % 2 == 0)) ≡ false =
        ground arith in
      let second : with_pcm json v rest (pcm_bytes v) ≡ ok (v, pcm, rest') =
        ap (with_pcm json v rest) counted
        ∙ rw checked (ap (λ r. r >>= λ (q : List ℕ × Stream). ok (v, q.0, q.1)) result') in
      (
        rest',
        rw fits (
            ap
              (λ r.
                r >>= parsed json >>= λ (q : Value × Stream). with_pcm json q.0 q.1 (pcm_bytes q.0))
              result
            ∙ ap (λ r. r >>= λ (q : Value × Stream). with_pcm json q.0 q.1 (pcm_bytes q.0))
                (parsed-dumps v rest)
            ∙ second),
        left',
        a'',
      )

  -- A request that the supervisor writes, with a header that names the length of its PCM, is read by the
  -- worker: the same header and the same audio, however the pipe cuts them up, and what was written
  -- behind them stays on the pipe.
  pub read_request-write_request :
      (request : Value) (pcm bytes more : List ℕ) (stream : Stream)
      → write_request json request pcm ≡ ok bytes
      → pcm_bytes request ≡ some (pos (length pcm))
      → length pcm ≤ max_pcm_bytes
      → length pcm % 2 ≡ 0
      → Arrives stream
      → flat stream ≡ bytes ++ more
      → (rest : Stream) × (read_request json stream ≡ ok (request, pcm, rest))
        × (flat rest ≡ more)
        × Arrives rest
  unfolding write_request read_request pack
  read_request-write_request request pcm bytes more stream e counted short even a f =
      elim (Bool-cases (ltb max_header_bytes (length (dumps request)))) [
        | inl long ↦ ground (arith, e, long)
        | inr fits ↦
            let n = length (dumps request) in
            let small : n ≤ max_header_bytes = ground arith in
            let same : pack n ++ (dumps request ++ pcm) ≡ bytes = ground (arith, e, fits) in
            let (rest, result, left, a') =
              read_head stream (pack n) (dumps request ++ (pcm ++ more)) a (
                f
                ∙ ap (λ xs. xs ++ more) (sym same)
                ∙ append_assoc (pack n) (dumps request ++ pcm) more
                ∙ ap (λ xs. pack n ++ xs) (append_assoc (dumps request) pcm more)) in
            let (rest', result', left', a'') =
              request_of-dumps request pcm rest more small counted short even a' left in
            (
              rest',
              after_prefix (request_of json) stream (pack n) rest n result
                    (unpack-pack n (omega arith))
                  ∙ result',
              left',
              a'',
            )
      ]
