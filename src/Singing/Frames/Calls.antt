-- ===== src/Singing/Frames/Calls.antt =====
-- The calls of tea_asr/singing_session.py over a session.
use tea_asr_service.Prelude.{
  ℕ, ◌+◌, ◌*◌, ◌%◌, ◌≡◌, sym, ap, subst, ◌∙◌, Bool, List, [], ◌∷◌, ◌++◌, append-nil, append_assoc,
  length, length-append, length-drop, take, drop, drop-append, take-append, arith,
}
use tea_asr_service.Singing.Tracker.{hop_samples}
use tea_asr_service.Singing.Frames.{
  Job, SessionSinging, Acted, length_of, send, dispatch, admit, push, computed,
}
use tea_asr_service.Singing.Frames.Windows.{
  IsFrames, CoversFrom, IsValid, computed-fits, taken, push-fits,
}

abbrev counts : List Job → ℕ
counts [] = 0
counts (job ∷ jobs) = job.count + counts jobs

push-next :
    (start_sample : ℕ) (pcm : List ℕ) (s : SessionSinging)
    → (push start_sample pcm s).0.next_frame ≡ s.next_frame + counts (push start_sample pcm s).1
unfolding push admit dispatch send
push-next start_sample pcm s = ground arith

computed-next :
    (good : Bool) (s : SessionSinging)
    → (computed good s).0.next_frame ≡ s.next_frame + counts (computed good s).1
unfolding computed dispatch send
computed-next good s = ground arith

IsFrames-grow :
    (heard more : List ℕ) (job : Job) → IsFrames heard job → IsFrames (heard ++ more) job
IsFrames-grow heard more job f = record {
  some_frames = f.some_frames;
  few = f.few;
  inside = omega (arith, f.inside, length-append heard more);
  exact =
      f.exact
      ∙ sym (
          ap (take (length_of job.count * 2))
            (drop-append (job.first * hop_samples * 2) heard more (omega (arith, f.inside)))
          ∙ take-append (length_of job.count * 2) (drop (job.first * hop_samples * 2) heard) more
              (omega (arith, f.inside, length-drop (job.first * hop_samples * 2) heard)));
}

CoversFrom-grow :
    (heard more : List ℕ) (n : ℕ) (jobs : List Job)
    → CoversFrom heard n jobs
    → CoversFrom (heard ++ more) n jobs
CoversFrom-grow heard more n [] c = tt
CoversFrom-grow heard more n (job ∷ jobs) c =
    (c.0, IsFrames-grow heard more job c.1, CoversFrom-grow heard more (n + job.count) jobs c.2)

CoversFrom-append :
    (heard : List ℕ) (n : ℕ) (jobs more : List Job)
    → CoversFrom heard n jobs
    → CoversFrom heard (n + counts jobs) more
    → CoversFrom heard n (jobs ++ more)
CoversFrom-append heard n [] more c d = subst (λ m. CoversFrom heard m more) (omega arith) d
CoversFrom-append heard n (job ∷ jobs) more c d = (
  c.0,
  c.1,
  CoversFrom-append heard (n + job.count) jobs more c.2
      (subst (λ m. CoversFrom heard m more) (omega arith) d),
)

pub data Turn : Type 0 where
  pushes : (start_sample : ℕ) (pcm : List ℕ) → Turn
  computes : (good : Bool) → Turn

unfoldable pub run : SessionSinging → List Turn → Acted
run s [] = (s, [])
run s (pushes start_sample pcm ∷ ts) =
    let (s', jobs) = push start_sample pcm s in let (s'', more) = run s' ts in (s'', jobs ++ more)
run s (computes good ∷ ts) =
    let (s', jobs) = computed good s in let (s'', more) = run s' ts in (s'', jobs ++ more)

-- The bytes that the session takes in
unfoldable pub stream : SessionSinging → List Turn → List ℕ
stream s [] = []
stream s (pushes start_sample pcm ∷ ts) =
    taken start_sample pcm s ++ stream (push start_sample pcm s).0 ts
stream s (computes good ∷ ts) = stream (computed good s).0 ts

-- Every push is of whole samples.
abbrev pub Whole : List Turn → Type 0
Whole [] = Unit
Whole (pushes start_sample pcm ∷ ts) = (length pcm % 2 ≡ 0) × Whole ts
Whole (computes good ∷ ts) = Whole ts

-- However the pushes of whole samples and the returns of the calls follow each other: each call of the
-- model asks for at most 16 frames and has exactly the samples of the stream that they span, the calls
-- cover the frames from the next one on, each once and in order, and the session stays consistent with
-- the stream, which is the bytes that it heard before and those that it has taken in.
pub run-CoversFrom :
    (heard : List ℕ) (s : SessionSinging) (ts : List Turn)
    → IsValid heard s
    → Whole ts
    → IsValid (heard ++ stream s ts) (run s ts).0
      × CoversFrom (heard ++ stream s ts) s.next_frame (run s ts).1
unfolding run stream
run-CoversFrom heard s [] v w = rw (append-nil heard) (v, tt)
run-CoversFrom heard s (pushes start_sample pcm ∷ ts) v w =
    let r = push start_sample pcm s in
    let here = push-fits heard start_sample pcm s v w.0 in
    let heard' = heard ++ taken start_sample pcm s in
    let more = stream r.0 ts in
    let rest = run-CoversFrom heard' r.0 ts here.0 w.1 in
    rw (← append_assoc heard (taken start_sample pcm s) more) (
      rest.0,
      CoversFrom-append (heard' ++ more) s.next_frame r.1 (run r.0 ts).1
          (CoversFrom-grow heard' more s.next_frame r.1 here.1)
          (subst (λ m. CoversFrom (heard' ++ more) m (run r.0 ts).1) (push-next start_sample pcm s)
            rest.1),
    )
run-CoversFrom heard s (computes good ∷ ts) v w =
    let r = computed good s in
    let here = computed-fits heard good s v in
    let more = stream r.0 ts in
    let rest = run-CoversFrom heard r.0 ts here.0 w in
    (
      rest.0,
      CoversFrom-append (heard ++ more) s.next_frame r.1 (run r.0 ts).1
          (CoversFrom-grow heard more s.next_frame r.1 here.1)
          (subst (λ m. CoversFrom (heard ++ more) m (run r.0 ts).1) (computed-next good s) rest.1),
    )
