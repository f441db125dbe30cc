-- ===== src/Stream/Consumer.antt =====
-- The consumer of api/stream.py (tea_asr/api/stream.py): the closed segments are recognised in order,
-- and each is ended by one event. `_transcribe_segment` is cut where it awaits the worker and the
-- restoration of the punctuation; what these answer is an argument.
use tea_asr_service.Prelude.{
  ℕ, ◌+◌, ◌&&◌, Option, none, some, List, [], ◌∷◌, ◌++◌, ltb, leb, if◌then◌else◌, length,
}
use tea_asr_service.Stream.{StreamSession, Segment, ClosedSegment, ErrorCode, Warning, segment_at}

-- What the worker answers: `refused` is an ApiError, `broken` any other exception.
pub data Answer : Type 0 where
  response : (text : List ℕ) → Answer
  refused : (code : ErrorCode) → Answer
  broken : Answer

-- Where the consumer awaits. `carried` is the previous final's text, if its audio was carried over.
pub data ConsumerPhase : Type 0 where
  idle : ConsumerPhase
  decoding :
      (closed : ClosedSegment) (decode_pcm : List ℕ) (carried : Option (List ℕ)) → ConsumerPhase
  retrying : (closed : ClosedSegment) → ConsumerPhase
  restoring :
      (closed : ClosedSegment) (raw_text text : List ℕ) (warnings : List Warning) → ConsumerPhase

abbrev pub unless_blank : List ℕ → Option (List ℕ)
unless_blank [] = none
unless_blank (c ∷ text) = some (c ∷ text)

-- The audio that is carried over, and the text that it repeats
carry_from : ℕ → Segment → Option (ℕ × List ℕ) → List ℕ × Option (List ℕ)
carry_from max_gap g none = ([], none)
carry_from max_gap g (some (end, text)) =
    if ltb 0 (length g.carry_pcm) && leb end g.start_sample && leb g.start_sample (end + max_gap)
    then (g.carry_pcm, unless_blank text)
    else ([], none)

module _ {S : Type 0} where
  unfoldable pub carry_of : StreamSession S → ℕ → List ℕ × Option (List ℕ)
  unfolding carry_from
  carry_of s i = carry_from s.config.carry_context_max_gap_samples (segment_at s i) s.previous_final

  -- `_transcribe_segment` up to its first wait
  unfoldable pub transcribe_segment : StreamSession S → ClosedSegment → ConsumerPhase
  unfolding carry_of
  transcribe_segment s closed =
      let (carry_pcm, carried) = carry_of s closed.segment in
      decoding closed (carry_pcm ++ closed.pcm) carried

  unfoldable pub take_from : StreamSession S → List ClosedSegment → StreamSession S × ConsumerPhase
  unfolding transcribe_segment
  take_from s [] = (s, idle)
  take_from s (closed ∷ pending) =
      let s' = record s { pending = pending } in
      if s.cancelled then (s', idle) else (s', transcribe_segment s' closed)

  -- closed = await self._pending.get()
  unfoldable pub take_next : StreamSession S → StreamSession S × ConsumerPhase
  unfolding take_from
  take_next s = take_from s s.pending
