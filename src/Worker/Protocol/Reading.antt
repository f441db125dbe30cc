-- ===== src/Worker/Protocol/Reading.antt =====
-- `read_exact` of worker/protocol.py (tea_asr/worker/protocol.py), on a pipe that arrives in chunks.
use tea_asr_service.Prelude.{
  ℕ, zero, suc, ◌+◌, ◌-◌, ◌≤◌, ◌<◌, ◌≡◌, refl, sym, ap, ◌∙◌, inl, inr, Bool-cases, List, [], ◌∷◌,
  ◌++◌, append-nil, append_assoc, arith, ltb, leb, length, take, drop, All, length-append,
  length-take, length-drop, take-append-drop,
}
use tea_asr_service.Worker.Protocol.{Stream, Result, ok, read, next_chunk, read_loop, read_exact}

-- The bytes that a stream still has
abbrev pub flat : Stream → List ℕ
flat [] = []
flat (chunk ∷ stream) = chunk ++ flat stream

-- A chunk that arrives has a byte.
abbrev pub Arrives : Stream → Type 0
Arrives stream = All (λ chunk. 0 < length chunk) stream

take-append_long :
    (n : ℕ) (xs ys : List ℕ) → length xs ≤ n → take n (xs ++ ys) ≡ xs ++ take (n - length xs) ys
take-append_long n [] ys le = ap (λ k. take k ys) (omega arith)
take-append_long zero (x ∷ xs) ys le = absurd (omega arith)
take-append_long (suc n) (x ∷ xs) ys le =
    ap (λ zs. x ∷ zs)
      (take-append_long n xs ys (omega arith) ∙ ap (λ k. xs ++ take k ys) (omega arith))

drop-append_long :
    (n : ℕ) (xs ys : List ℕ) → length xs ≤ n → drop n (xs ++ ys) ≡ drop (n - length xs) ys
drop-append_long n [] ys le = ap (λ k. drop k ys) (omega arith)
drop-append_long zero (x ∷ xs) ys le = absurd (omega arith)
drop-append_long (suc n) (x ∷ xs) ys le =
    drop-append_long n xs ys (omega arith) ∙ ap (λ k. drop k ys) (omega arith)

-- A read of a stream that is not at its end
record IsRead (n : ℕ) (stream : Stream) (r : List ℕ × Stream) : Type 0 where
  some_read : 0 < length r.0
  at_most : length r.0 ≤ n
  in_order : flat stream ≡ r.0 ++ flat r.1
  arrives : Arrives r.1

read-IsRead :
    (n : ℕ) (stream : Stream)
    → 0 < n
    → Arrives stream
    → 0 < length (flat stream)
    → IsRead n stream (read n stream)
unfolding read
read-IsRead n [] pos' a b = absurd (omega arith)
read-IsRead n (chunk ∷ stream) pos' a b = elim (Bool-cases (leb (length chunk) n)) [
  | inl whole ↦
      rw whole (record { some_read = a.0; at_most = ground arith; in_order = refl; arrives = a.1 })
  | inr more ↦
      let lt : n < length chunk = ground arith in
      rw more (record {
        some_read = omega (arith, length-take {0} n chunk);
        at_most = omega (arith, length-take {0} n chunk);
        in_order =
            ap (λ xs. xs ++ flat stream) (sym (take-append-drop n chunk))
            ∙ append_assoc (take n chunk) (drop n chunk) (flat stream);
        arrives = (omega (arith, length-drop {0} n chunk), a.1);
      })
]

-- What is left when `n` bytes are read in all
pub record HasRead (n : ℕ) (chunks : List ℕ) (stream : Stream) (r : Result (List ℕ × Stream))
    : Type 0 where
  pub rest : Stream
  pub result : r ≡ ok (chunks ++ take (n - length chunks) (flat stream), rest)
  pub left : flat rest ≡ drop (n - length chunks) (flat stream)
  pub arrives : Arrives rest

next_chunk-HasRead :
    (loop : List ℕ → Stream → Result (List ℕ × Stream)) (n : ℕ) (chunks : List ℕ) (stream : Stream)
    (r : List ℕ × Stream)
    → length chunks ≤ n
    → IsRead (n - length chunks) stream r
    → ((chunks' : List ℕ) (stream' : Stream)
        → length chunks < length chunks'
        → length chunks' ≤ n
        → n ≤ length chunks' + length (flat stream')
        → Arrives stream'
        → HasRead n chunks' stream' (loop chunks' stream'))
    → n ≤ length chunks + length (flat stream)
    → HasRead n chunks stream (next_chunk loop chunks r)
unfolding next_chunk
next_chunk-HasRead loop n chunks stream ([], rest) le i next enough =
    absurd (omega (arith, i.some_read))
next_chunk-HasRead loop n chunks stream (b ∷ got, rest) le i next enough =
    let size = length-append {0} chunks (b ∷ got) in
    let size' = length-append {0} (b ∷ got) (flat rest) in
    let whole = ap (λ (xs : List ℕ). length xs) i.in_order in
    let k =
      next (chunks ++ b ∷ got) rest (omega (arith, size)) (omega (arith, size, i.at_most))
        (omega (arith, size, size', whole)) i.arrives in
    let fewer : n - length (chunks ++ b ∷ got) ≡ n - length chunks - length (b ∷ got) =
      omega (arith, size) in
    record {
      rest = k.rest;
      result =
          k.result
          ∙ ap (λ xs. ok (xs, k.rest))
              (append_assoc chunks (b ∷ got) _
                ∙ ap (λ xs. chunks ++ xs)
                    (ap (λ m. (b ∷ got) ++ take m (flat rest)) fewer
                      ∙ sym (take-append_long (n - length chunks) (b ∷ got) (flat rest) i.at_most)
                      ∙ ap (take (n - length chunks)) (sym i.in_order)));
      left =
          k.left
          ∙ ap (λ m. drop m (flat rest)) fewer
          ∙ sym (drop-append_long (n - length chunks) (b ∷ got) (flat rest) i.at_most)
          ∙ ap (drop (n - length chunks)) (sym i.in_order);
      arrives = k.arrives;
    }

read_loop-HasRead :
    (fuel n : ℕ) (chunks : List ℕ) (stream : Stream)
    → n - length chunks < fuel
    → length chunks ≤ n
    → n ≤ length chunks + length (flat stream)
    → Arrives stream
    → HasRead n chunks stream (read_loop fuel n chunks stream)
unfolding read_loop
read_loop-HasRead zero n chunks stream lt le enough a = absurd (omega arith)
read_loop-HasRead (suc fuel) n chunks stream lt le enough a =
    elim (Bool-cases (ltb (length chunks) n)) [
      | inr done ↦
          let none' : n - length chunks ≡ 0 = ground arith in
          rw done (record {
            rest = stream;
            result =
                ap (λ xs. ok (xs, stream)) (sym (append-nil chunks))
                ∙ ap (λ k. ok (chunks ++ take k (flat stream), stream)) (sym none');
            left = ap (λ k. drop k (flat stream)) (sym none');
            arrives = a;
          })
      | inl on ↦
          let lt' : length chunks < n = ground arith in
          rw on (
            next_chunk-HasRead (read_loop fuel n) n chunks stream (read (n - length chunks) stream)
              le (read-IsRead (n - length chunks) stream (omega arith) a (omega arith))
              (λ chunks' stream' grown le' enough' a'.
                read_loop-HasRead fuel n chunks' stream' (omega arith) le' enough' a')
              enough)
    ]

-- However the bytes are cut into chunks: while `n` bytes are there, `read_exact` gives the first `n` and
-- leaves the others.
pub read_exact-HasRead :
    (stream : Stream) (n : ℕ)
    → Arrives stream
    → n ≤ length (flat stream)
    → (rest : Stream) × (read_exact stream n ≡ ok (take n (flat stream), rest))
      × (flat rest ≡ drop n (flat stream))
      × Arrives rest
unfolding read_exact
read_exact-HasRead stream n a enough =
    let k = read_loop-HasRead (suc n) n [] stream (omega arith) (omega arith) (omega arith) a in
    let e : n - 0 ≡ n = omega arith in
    (
      k.rest,
      k.result ∙ ap (λ m. ok (take m (flat stream), k.rest)) e,
      k.left ∙ ap (λ m. drop m (flat stream)) e,
      k.arrives,
    )
