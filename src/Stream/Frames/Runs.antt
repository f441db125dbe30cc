-- ===== src/Stream/Frames/Runs.antt =====
-- The frames of a session of api/stream.py (tea_asr/api/stream.py), one after the other.
use tea_asr_service.Prelude.{
  ℕ, ◌+◌, ◌*◌, ◌≤◌, ◌≡◌, refl, ap, ◌∙◌, inr, Option, List, [], ◌∷◌, ◌++◌, arith, length,
}
use tea_asr_service.Segmenter.{ContinuousSegmenter}
use tea_asr_service.Stream.{StreamSession, SessionConfig, Outcome, done, raised, ◌>>=◌, ErrorCode}
use tea_asr_service.Stream.Machine.{start_session}
use tea_asr_service.Stream.Frames.{handle_frame, pcm_of}
use tea_asr_service.Stream.Frames.Clock.{IsFlowing}
use tea_asr_service.Stream.Frames.Flow.{IsTaken, Takes, handle_frame-Takes}
use tea_asr_service.Stream.Frames.Refusal.{IsRefused, RefusesFrame, handle_frame-RefusesFrame}

module _ {S : Type 0} (probability : List ℕ → S → ℕ × S) where
  -- Frame after frame, as long as they are accepted
  unfoldable pub handle_frames : StreamSession S → List (ℕ × List ℕ) → Outcome S
  handle_frames s [] = done s
  handle_frames s ((now, frame) ∷ frames) = do
    s' ← handle_frame probability s now frame
    handle_frames s' frames

  abbrev pub audio_bytes : List (ℕ × List ℕ) → ℕ
  audio_bytes [] = 0
  audio_bytes ((now, frame) ∷ frames) = length (pcm_of frame) + audio_bytes frames

  -- The frames up to `frame` are accepted, and `frame` is refused with `e`, which leaves `s'`.
  pub record IsStopped (s : StreamSession S) (frames : List (ℕ × List ℕ)) (e : ErrorCode)
      (s' : StreamSession S) : Type 0 where
    pub earlier : List (ℕ × List ℕ)
    pub now : ℕ
    pub frame : List ℕ
    pub later : List (ℕ × List ℕ)
    pub last : StreamSession S
    pub split : frames ≡ earlier ++ (now, frame) ∷ later
    pub accepted : handle_frames s earlier ≡ done last
    pub refused : IsRefused probability last frame e s'

  -- After `frames` from `s`
  abbrev pub Clocked : StreamSession S → List (ℕ × List ℕ) → Outcome S → Type 0
  Clocked s frames (done s') =
      (s'.next_seq ≡ s.next_seq + length frames)
      × (s'.next_sample * 2 ≡ s.next_sample * 2 + audio_bytes frames)
      × (s.send_until_sample ≤ s'.send_until_sample)
      × IsFlowing s'
  Clocked s frames (raised e s') = IsStopped s frames e s'

  Clocked-next :
      (s q : StreamSession S) (now : ℕ) (frame : List ℕ) (frames : List (ℕ × List ℕ))
      (o : Outcome S)
      → handle_frame probability s now frame ≡ done q
      → IsTaken s frame q
      → Clocked q frames o
      → Clocked s ((now, frame) ∷ frames) o
  unfolding handle_frames
  Clocked-next s q now frame frames (raised e r) step k c = record {
    earlier = (now, frame) ∷ c.earlier;
    now = c.now;
    frame = c.frame;
    later = c.later;
    last = c.last;
    split = ap (λ fs. (now, frame) ∷ fs) c.split;
    accepted = ap (λ o. o >>= λ q. handle_frames q c.earlier) step ∙ c.accepted;
    refused = c.refused;
  }
  Clocked-next s q now frame frames (done r) step k c = (
    omega (arith, c.0, k.counted),
    omega (arith, c.1, k.clocked, k.whole),
    omega (arith, c.2, k.widened),
    c.3,
  )

  frame_then :
      (s : StreamSession S) (now : ℕ) (frame : List ℕ) (frames : List (ℕ × List ℕ)) (o : Outcome S)
      → handle_frame probability s now frame ≡ o
      → Takes s frame o
      → RefusesFrame probability s frame o
      → ((q : StreamSession S) → IsFlowing q → Clocked q frames (handle_frames q frames))
      → Clocked s ((now, frame) ∷ frames) (do s' ← o; handle_frames s' frames)
  unfolding handle_frames
  frame_then s now frame frames (raised e q) step k h rest = record {
    earlier = [];
    now = now;
    frame = frame;
    later = frames;
    last = s;
    split = refl;
    accepted = refl;
    refused = h;
  }
  frame_then s now frame frames (done q) step k h rest =
      Clocked-next s q now frame frames (handle_frames q frames) step k (rest q k.flowing)

  frames-Clocked :
      (s : StreamSession S) (frames : List (ℕ × List ℕ))
      → IsFlowing s
      → Clocked s frames (handle_frames s frames)
  unfolding handle_frames
  frames-Clocked s [] f = (omega arith, omega arith, omega arith, f)
  frames-Clocked s ((now, frame) ∷ frames) f =
      frame_then s now frame frames (handle_frame probability s now frame) refl
        (handle_frame-Takes probability s now frame f)
        (handle_frame-RefusesFrame probability s now frame) (λ q g. frames-Clocked q frames g)

  pub handle_frames-Clocked :
      (config : SessionConfig) (segmenter : Option (ContinuousSegmenter S)) (request_id : ℕ)
      (frames : List (ℕ × List ℕ))
      → let s = (start_session config segmenter request_id).session in
        Clocked s frames (handle_frames s frames)
  unfolding start_session
  handle_frames-Clocked config segmenter request_id frames =
      frames-Clocked (start_session config segmenter request_id).session frames
        (record { within = omega arith; safe = omega arith; wide = inr (omega arith) })
