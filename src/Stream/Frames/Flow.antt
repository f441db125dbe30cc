-- ===== src/Stream/Frames/Flow.antt =====
-- What the frames of a session of api/stream.py (tea_asr/api/stream.py) do to its clock and window.
use tea_asr_service.Prelude.{
  ℕ, ◌+◌, ◌/◌, ◌%◌, ◌≤◌, ◌<◌, ◌≡◌, ◌∙◌, inl, inr, Bool, true, false, not, Bool-cases, ◌||◌, Option,
  none, some, List, [], ◌∷◌, ◌++◌, arith, leb, ltb, ◌==◌, if◌then◌else◌, length,
}
use tea_asr_service.Segmenter.{ContinuousSegmenter}
use tea_asr_service.Segmenter.Machine.{push}
use tea_asr_service.Stream.{StreamSession, Outcome, done, raised, ◌>>=◌, audio_ack}
use tea_asr_service.Stream.History.{remember_audio}
use tea_asr_service.Stream.Frames.{
  refill, acknowledge, advance_with, advance_continuous, take_audio, frame_error, handle_frame,
  pcm_of, start_of, seq_of, frame_header_bytes, max_frame_pcm_bytes, max_safe_int,
}
use tea_asr_service.Stream.Frames.Clock.{
  KeepsClock, IsFlowing, Keeps, Keeps-after, pushed-Keeps, extend_utterance-Keeps,
  remember_audio-KeepsClock, maybe_schedule_preview-KeepsClock, refill-IsFlowing,
}

-- What an accepted frame tells of the session before and after it
pub record IsTaken {S : Type 0} (s : StreamSession S) (frame : List ℕ) (s' : StreamSession S)
    : Type 0 where
  pub in_turn : seq_of frame ≡ s.next_seq
  pub in_time : start_of frame ≡ s.next_sample
  pub carries : frame_header_bytes < length frame
  pub whole : length (pcm_of frame) % 2 ≡ 0
  pub small : length (pcm_of frame) ≤ max_frame_pcm_bytes
  pub counted : s'.next_seq ≡ s.next_seq + 1
  pub clocked : s'.next_sample ≡ s.next_sample + length (pcm_of frame) / 2
  pub widened : s.send_until_sample ≤ s'.send_until_sample
  pub flowing : IsFlowing s'

-- None of the tests of a header fails.
header_facts :
    (bytes pcm seq start next_seq next_sample until : ℕ)
    → (leb bytes frame_header_bytes
        || ltb max_frame_pcm_bytes pcm
        || not (pcm % 2 == 0)
        || ltb max_safe_int seq
        || ltb max_safe_int start
        || not (seq == next_seq)
        || not (start == next_sample)
        || ltb until (start + pcm / 2))
      ≡ false
    → (seq ≡ next_seq)
      × (start ≡ next_sample)
      × (frame_header_bytes < bytes)
      × (pcm % 2 ≡ 0)
      × (pcm ≤ max_frame_pcm_bytes)
      × (start + pcm / 2 ≤ until)
header_facts bytes pcm seq start next_seq next_sample until e = ground arith

module _ {S : Type 0} where
  abbrev pub Takes : StreamSession S → List ℕ → Outcome S → Type 0
  Takes s frame (done s') = IsTaken s frame s'
  Takes s frame (raised e s') = Unit

  IsFlowing-KeepsClock : {s s' : StreamSession S} → IsFlowing s → KeepsClock s s' → IsFlowing s'
  IsFlowing-KeepsClock f k = record {
    within = omega (arith, f.within, k.sample_kept, k.window_kept);
    safe = omega (arith, f.safe, k.window_kept);
    wide = elim f.wide [
      | inl top ↦ inl (k.window_kept ∙ top)
      | inr room ↦ inr (omega (arith, room, k.sample_kept, k.window_kept))
    ];
  }

  acknowledge-IsFlowing :
      (seq end_sample now : ℕ) (s : StreamSession S)
      → end_sample ≤ s.send_until_sample
      → s.send_until_sample ≤ max_safe_int
      → let s' = acknowledge seq end_sample now s in
        IsFlowing s'
        × (s.send_until_sample ≤ s'.send_until_sample)
        × (s'.next_sample ≡ end_sample)
        × (s'.next_seq ≡ s.next_seq + 1)
  unfolding acknowledge
  acknowledge-IsFlowing seq end_sample now s fits small =
      let q = record s {
        next_seq = s.next_seq + 1;
        next_sample = end_sample;
        sent = s.sent ++ audio_ack seq end_sample ∷ [];
      } in
      let (flowing, wider, sample, number) = refill-IsFlowing q fits small in
      let k = maybe_schedule_preview-KeepsClock (refill q) now in
      (
        IsFlowing-KeepsClock flowing k,
        omega (arith, wider, k.window_kept),
        k.sample_kept ∙ sample,
        k.seq_kept ∙ number,
      )

  Keeps-if :
      (b : Bool) (s : StreamSession S) (x y : Outcome S)
      → Keeps s x
      → Keeps s y
      → Keeps s (if b then x else y)
  Keeps-if true s x y h k = h
  Keeps-if false s x y h k = k

  module _ (probability : List ℕ → S → ℕ × S) where
    advance_with-Keeps :
        (s : StreamSession S) (o : Option (ContinuousSegmenter S)) (pcm : List ℕ)
        → Keeps s (advance_with probability s o pcm)
    unfolding advance_with
    advance_with-Keeps s none pcm = tt
    advance_with-Keeps s (some segmenter) pcm = pushed-Keeps s (push probability segmenter pcm)

    take_audio-Keeps :
        (s : StreamSession S) (a : ℕ) (pcm : List ℕ) → Keeps s (take_audio probability s a pcm)
    unfolding take_audio advance_continuous
    take_audio-Keeps s a pcm =
        Keeps-if s.config.continuous s _ _ (advance_with-Keeps s s.segmenter pcm)
          (extend_utterance-Keeps s a pcm)

    header_checked :
        (s : StreamSession S) (frame : List ℕ)
        → frame_error probability s frame ≡ false
        → (seq_of frame ≡ s.next_seq)
          × (start_of frame ≡ s.next_sample)
          × (frame_header_bytes < length frame)
          × (length (pcm_of frame) % 2 ≡ 0)
          × (length (pcm_of frame) ≤ max_frame_pcm_bytes)
          × (start_of frame + length (pcm_of frame) / 2 ≤ s.send_until_sample)
    unfolding frame_error
    header_checked s frame e =
        header_facts (length frame) (length (pcm_of frame)) (seq_of frame) (start_of frame)
          s.next_seq s.next_sample s.send_until_sample e

    acknowledged-Takes :
        (s : StreamSession S) (now : ℕ) (frame : List ℕ) (o : Outcome S)
        → frame_error probability s frame ≡ false
        → s.send_until_sample ≤ max_safe_int
        → Keeps s o
        → Takes s frame (do
          s' ← o
          done (acknowledge (seq_of frame) (start_of frame + length (pcm_of frame) / 2) now s'))
    acknowledged-Takes s now frame (raised e q) ok' safe k = tt
    acknowledged-Takes s now frame (done q) ok' safe k =
        let (turn, time, carries, whole, small, fits) = header_checked s frame ok' in
        let (flowing, wider, sample, number) =
          acknowledge-IsFlowing (seq_of frame) (start_of frame + length (pcm_of frame) / 2) now q
            (omega (arith, fits, k.window_kept)) (omega (arith, safe, k.window_kept)) in
        record {
          in_turn = turn;
          in_time = time;
          carries = carries;
          whole = whole;
          small = small;
          counted = omega (arith, number, k.seq_kept);
          clocked = omega (arith, sample, time);
          widened = omega (arith, wider, k.window_kept);
          flowing = flowing;
        }

    -- An accepted frame has its turn and its time; it moves the clock by its samples, and leaves room
    -- to send more.
    pub handle_frame-Takes :
        (s : StreamSession S) (now : ℕ) (frame : List ℕ)
        → IsFlowing s
        → Takes s frame (handle_frame probability s now frame)
    unfolding handle_frame
    handle_frame-Takes s now frame flowing =
        let start = start_of frame in
        let pcm = pcm_of frame in
        let q = remember_audio start pcm s in
        elim (Bool-cases (frame_error probability s frame)) [
          | inl wrong ↦ rw wrong tt
          | inr ok' ↦ rw ok' (
              acknowledged-Takes s now frame (take_audio probability q start pcm) ok' flowing.safe (
                Keeps-after (take_audio probability q start pcm)
                  (remember_audio-KeepsClock start pcm s) (take_audio-Keeps q start pcm)))
        ]
