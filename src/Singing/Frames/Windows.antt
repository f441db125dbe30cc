-- ===== src/Singing/Frames/Windows.antt =====
-- The samples that the calls of tea_asr/singing_session.py have, against the stream.
use tea_asr_service.Prelude.{
  ℕ, ◌+◌, ◌-◌, ◌*◌, ◌/◌, ◌%◌, ◌≤◌, ◌<◌, min, ◌≡◌, refl, sym, ap, ap₂, ◌∙◌, inl, inr, Bool, false,
  not, ◌||◌, Bool-cases, none, some, List, [], ◌∷◌, ◌++◌, append-nil, ltb, ◌==◌, if◌then◌else◌,
  length, length-append, length-drop, take, drop, pos, sub_ℕ, slice_index, slice, slice-pos,
  drop-drop, drop-append, arith,
}
use tea_asr_service.Singing.Tracker.{complete_frames, patch_samples, hop_samples}
use tea_asr_service.Singing.Frames.{
  max_backlog_samples, max_frames_per_call, Failure, sample_gap, backlog_overflow, exception, Job,
  SessionSinging, is_some, fail, pending_frames, length_of, send, dispatch, admit, push, computed,
}

-- The job asks for at most 16 frames, and has the samples that they span in the stream.
pub record IsFrames (heard : List ℕ) (job : Job) : Type 0 where
  pub some_frames : 0 < job.count
  pub few : job.count ≤ max_frames_per_call
  pub inside : (job.first * hop_samples + length_of job.count) * 2 ≤ length heard
  pub exact :
      job.waveform ≡ take (length_of job.count * 2) (drop (job.first * hop_samples * 2) heard)

-- The jobs cover the frames from `n` on, each once and in order.
abbrev pub CoversFrom : List ℕ → ℕ → List Job → Type 0
CoversFrom heard n [] = Unit
CoversFrom heard n (job ∷ jobs) =
    (job.first ≡ n) × IsFrames heard job × CoversFrom heard (n + job.count) jobs

-- What holds of the session when it has heard the bytes.
pub record IsValid (heard : List ℕ) (s : SessionSinging) : Type 0 where
  pub whole : length heard ≡ s.end_sample * 2
  pub aligned : s.buffer_start ≡ s.next_frame * hop_samples
  pub inside : s.buffer_start ≤ s.end_sample
  pub buffered : is_some s.failed ≡ false → s.buffer ≡ drop (s.buffer_start * 2) heard

complete_frames-fit :
    (n total : ℕ) → n < complete_frames total → n * hop_samples + patch_samples ≤ total
unfolding complete_frames
complete_frames-fit n total h = ground arith

send-fits :
    (heard : List ℕ) (count : ℕ) (s : SessionSinging)
    → IsValid heard s
    → is_some s.failed ≡ false
    → 0 < count
    → count ≤ max_frames_per_call
    → s.next_frame + count ≤ complete_frames s.end_sample
    → IsValid heard (send count s).0 × CoversFrom heard s.next_frame (send count s).1
unfolding send
send-fits heard count s v ok some' few fits =
    let n = s.next_frame in
    let start = s.buffer_start * 2 in
    let reach : n * hop_samples + length_of count ≤ s.end_sample =
      omega
        (arith, complete_frames-fit (n + count - 1) s.end_sample (omega (arith, some', fits))) in
    let from : sub_ℕ (n * hop_samples * 2) start ≡ pos 0 = ground (arith, v.aligned) in
    let to : sub_ℕ ((n * hop_samples + length_of count) * 2) start ≡ pos (length_of count * 2) =
      ground (arith, v.aligned) in
    let gone : sub_ℕ ((n + count) * hop_samples * 2) start ≡ pos (count * hop_samples * 2) =
      ground (arith, v.aligned) in
    let size : length s.buffer ≡ length heard - start =
      ap (λ (b : List ℕ). length b) (v.buffered ok) ∙ length-drop start heard in
    let room : length_of count * 2 ≤ length s.buffer =
      omega (arith, size, v.whole, v.aligned, reach) in
    let cut : slice_index (length s.buffer) (sub_ℕ ((n + count) * hop_samples * 2) start)
        ≡ count * hop_samples * 2 =
      ap (slice_index (length s.buffer)) gone ∙ omega (arith, room, some') in
    let valid : IsValid heard (send count s).0 = record {
      whole = v.whole;
      aligned = refl;
      inside = omega (arith, reach, some');
      buffered = λ _.
          ap (λ m. drop m s.buffer) cut
          ∙ ap (drop (count * hop_samples * 2)) (v.buffered ok)
          ∙ drop-drop start (count * hop_samples * 2) heard
          ∙ ap (λ m. drop m heard) (omega (arith, v.aligned));
    } in
    let frames : IsFrames heard (record {
      first = n;
      count = count;
      waveform =
          slice s.buffer (sub_ℕ (n * hop_samples * 2) start)
            (sub_ℕ ((n * hop_samples + length_of count) * 2) start);
    }) =
      record {
        some_frames = some';
        few = few;
        inside = omega (arith, v.whole, reach);
        exact =
            ap₂ (slice s.buffer) from to
            ∙ slice-pos s.buffer 0 (length_of count * 2) (omega arith) room
            ∙ ap (λ m. take m s.buffer) (omega arith)
            ∙ ap (take (length_of count * 2)) (v.buffered ok)
            ∙ ap (λ m. take (length_of count * 2) (drop m heard)) (omega (arith, v.aligned));
      } in
    let covers : CoversFrom heard n (send count s).1 = (refl, frames, tt) in (valid, covers)

dispatch-fits :
    (heard : List ℕ) (s : SessionSinging)
    → IsValid heard s
    → IsValid heard (dispatch s).0 × CoversFrom heard s.next_frame (dispatch s).1
unfolding dispatch
dispatch-fits heard s v = elim (Bool-cases (is_some s.failed || is_some s.running)) [
  | inl busy ↦ simp busy (v, tt)
  | inr free ↦ elim (Bool-cases (pending_frames s == 0)) [
    | inl nothing ↦ simp (free, nothing) (v, tt)
    | inr some' ↦
        simp (free, some')
          (send-fits heard (min (pending_frames s) max_frames_per_call) s v (ground (arith, free))
            (ground (arith, some')) (omega arith) (ground (arith, some')))
  ]
]

failed-IsValid :
    (heard : List ℕ) (reason : Failure) (s : SessionSinging)
    → IsValid heard s
    → IsValid heard (record s { failed = some reason; buffer = [] })
failed-IsValid heard reason s v = record {
  whole = v.whole;
  aligned = v.aligned;
  inside = v.inside;
  buffered = λ h. cc;
}

fail-IsValid :
    (heard : List ℕ) (reason : Failure) (s : SessionSinging)
    → IsValid heard s
    → IsValid heard (fail reason s)
fail-IsValid heard reason s v = elim (Bool-cases (is_some s.failed)) [
  | inl before ↦ simp before v
  | inr now ↦ simp now (failed-IsValid heard reason s v)
]

pub computed-fits :
    (heard : List ℕ) (good : Bool) (s : SessionSinging)
    → IsValid heard s
    → IsValid heard (computed good s).0 × CoversFrom heard s.next_frame (computed good s).1
unfolding computed
computed-fits heard good s v =
    let free : IsValid heard (record s { running = none }) = record {
      whole = v.whole;
      aligned = v.aligned;
      inside = v.inside;
      buffered = v.buffered;
    } in
    elim (Bool-cases good) [
      | inl fine ↦ simp fine (dispatch-fits heard (record s { running = none }) free)
      | inr bad ↦ simp bad (fail-IsValid heard exception (record s { running = none }) free, tt)
    ]

-- The bytes that the session takes in with a push
abbrev pub taken : ℕ → List ℕ → SessionSinging → List ℕ
taken start_sample pcm s =
    if is_some s.failed || not (start_sample == s.end_sample) then [] else pcm

grown-IsValid :
    (heard pcm : List ℕ) (s : SessionSinging)
    → IsValid heard s
    → length pcm % 2 ≡ 0
    → is_some s.failed ≡ false
    → IsValid
        (heard ++ pcm)
        (record s { buffer = s.buffer ++ pcm; end_sample = s.end_sample + length pcm / 2 })
grown-IsValid heard pcm s v even ok = record {
  whole = omega (arith, length-append heard pcm, v.whole, even);
  aligned = v.aligned;
  inside = omega (arith, v.inside);
  buffered = λ _.
      ap (λ b. b ++ pcm) (v.buffered ok)
      ∙ sym (drop-append (s.buffer_start * 2) heard pcm (omega (arith, v.whole, v.inside)));
}

admit-fits :
    (heard : List ℕ) (s : SessionSinging)
    → IsValid heard s
    → IsValid heard (admit s).0 × CoversFrom heard s.next_frame (admit s).1
unfolding admit
admit-fits heard s v = elim (Bool-cases (ltb (s.buffer_start + max_backlog_samples) s.end_sample)) [
  | inl late ↦ simp late (fail-IsValid heard backlog_overflow s v, tt)
  | inr fits ↦ simp fits (dispatch-fits heard s v)
]

pub push-fits :
    (heard : List ℕ) (start_sample : ℕ) (pcm : List ℕ) (s : SessionSinging)
    → IsValid heard s
    → length pcm % 2 ≡ 0
    → let heard' = heard ++ taken start_sample pcm s in
      IsValid heard' (push start_sample pcm s).0
      × CoversFrom heard' s.next_frame (push start_sample pcm s).1
unfolding push
push-fits heard start_sample pcm s v even = elim (Bool-cases (is_some s.failed)) [
  | inl over ↦ simp (over, append-nil heard) (v, tt)
  | inr ok ↦ elim (Bool-cases (start_sample == s.end_sample)) [
    | inr gap ↦ simp (ok, gap, append-nil heard) (failed-IsValid heard sample_gap s v, tt)
    | inl next ↦
        simp (ok, next)
          (admit-fits (heard ++ pcm)
            (record s { buffer = s.buffer ++ pcm; end_sample = s.end_sample + length pcm / 2 })
            (grown-IsValid heard pcm s v even ok))
  ]
]
