-- ===== src/Stream/Machine/Ledger/Closes.antt =====
-- The books of a segment of a session of api/stream.py (tea_asr/api/stream.py), which `enqueue` and the
-- consumer write: how often it was queued and ended, and where it waits.
use tea_asr_service.Prelude.{
  ℕ, ◌+◌, ◌-◌, ◌≤◌, ◌<◌, ◌≡◌, ◌≢◌, refl, sym, ap, ◌∙◌, inl, inr, Bool, Bool-cases, Option, none,
  some, List, arith, leb, ◌==◌, ==_iff, if◌then◌else◌, length,
}
use tea_asr_service.Segmenter
use tea_asr_service.Segmenter.{SegmenterEvent, SegmentClosed, ContinuousSegmenter}
use tea_asr_service.Stream.{
  StreamSession, ClosedSegment, Boundary, boundary_of, Outcome, done, raised, ◌>>=◌, ErrorCode,
  segment_queued, max_pending_segments, segment_at,
}
use tea_asr_service.Stream.Segments.{open_segment, enqueue, reopen, close_segment}
use tea_asr_service.Stream.Machine.Ledger.{
  queues, ends, overflows, tally-append, waits, waits-append, queued, ended, overflowed, IsSame,
  IsSame-emit,
}
use tea_asr_service.Stream.Machine.Ledger.Previews.{settle_preview_soon-IsSame}
use tea_asr_service.Stream.Machine.Ledger.Serving.{IsServed}

abbrev pub one_if : Bool → ℕ
one_if b = if b then 1 else 0

-- Only an ApiError may have lost the segment that its handler closed.
abbrev pub slack_of : ErrorCode → ℕ
slack_of ErrorCode.crashed = 0
slack_of code = 1

-- `h` counts the segment in the consumer's hands, and `slack` what a raised error left open.
pub record HasBooks {S : Type 0} (i h slack : ℕ) (s : StreamSession S) : Type 0 where
  pub opened : s.segment ≡ some i → (queued i s ≡ 0) × (i < s.next_index)
  pub future : s.next_index ≤ i → queued i s ≡ 0
  pub once : queued i s ≤ 1
  pub bounded : ended i s + waits i s.pending + h ≤ queued i s
  pub kept :
      queued i s ≤ ended i s + waits i s.pending + h + overflowed s + slack + one_if s.cancelled

module _ {S : Type 0} (i : ℕ) where
  pub HasBooks-IsSame :
      {s s' : StreamSession S} {h slack : ℕ}
      → HasBooks i h slack s
      → IsSame i s s'
      → HasBooks i h slack s'
  HasBooks-IsSame b e = record {
    opened = λ o.
        let (none', past) = b.opened (sym e.segment_same ∙ o) in
        (e.queued_same ∙ none', omega (arith, e.next_index_same));
    future = λ le. e.queued_same ∙ b.future (omega (arith, e.next_index_same));
    once = omega (arith, b.once, e.queued_same);
    bounded = omega (arith, b.bounded, e.queued_same, e.ended_same, e.waits_same);
    kept = omega (
      arith,
      b.kept,
      e.queued_same,
      e.ended_same,
      e.waits_same,
      e.overflowed_same,
      ap one_if e.cancelled_same,
    );
  }

  pub HasBooks-IsServed :
      {s s' : StreamSession S} {h h' : ℕ}
      → HasBooks i h 0 s
      → IsServed i s h s' h'
      → HasBooks i h' 0 s'
  HasBooks-IsServed {s} {s'} {h} {h'} b e = record {
    opened = λ o.
        let (none', past) = b.opened (sym e.segment_same ∙ o) in
        (e.queued_same ∙ none', omega (arith, e.next_index_same));
    future = λ le. e.queued_same ∙ b.future (omega (arith, e.next_index_same));
    once = omega (arith, b.once, e.queued_same);
    bounded = omega (arith, b.bounded, e.queued_same, e.at_most);
    kept = elim (Bool-cases s.cancelled) [
      | inl off ↦ omega (arith, b.once, e.queued_same, ap one_if e.cancelled_same, ap one_if off)
      | inr on ↦ omega (
        arith,
        b.kept,
        e.queued_same,
        e.overflowed_same,
        e.none_lost on,
        ap one_if e.cancelled_same,
      )
    ];
  }

  -- The books behind a handler
  abbrev pub Settles : ℕ → Outcome S → Type 0
  Settles h (done s) = HasBooks i h 0 s
  Settles h (raised e s) =
      HasBooks i h (slack_of e) s × (e ≢ ErrorCode.conflict) × (e ≢ ErrorCode.queue_full)

  pub Settles->>= :
      (h : ℕ) (m : Outcome S) (f : StreamSession S → Outcome S)
      → Settles h m
      → ((s : StreamSession S) → HasBooks i h 0 s → Settles h (f s))
      → Settles h (m >>= f)
  Settles->>= h (done s) f b k = k s b
  Settles->>= h (raised e s) f b k = b

  pub with_slack : {s : StreamSession S} {h : ℕ} → HasBooks i h 0 s → HasBooks i h 1 s
  with_slack b = record {
    opened = b.opened;
    future = b.future;
    once = b.once;
    bounded = b.bounded;
    kept = omega (arith, b.kept);
  }

  pub open_segment-HasBooks :
      (s : StreamSession S) (start_sample : ℕ) {h : ℕ}
      → HasBooks i h 0 s
      → HasBooks i h 0 (open_segment start_sample s)
  unfolding open_segment
  open_segment-HasBooks s start_sample b = record {
    opened = λ o. let e : s.next_index ≡ i = cc in (b.future (omega arith), omega arith);
    future = λ le. b.future (omega arith);
    once = b.once;
    bounded = b.bounded;
    kept = b.kept;
  }

  pub unset-HasBooks :
      (s : StreamSession S) {h : ℕ}
      → HasBooks i h 0 s
      → HasBooks i h 0 (record s { segment = none })
  unset-HasBooks s b = record {
    opened = λ o. cc;
    future = b.future;
    once = b.once;
    bounded = b.bounded;
    kept = b.kept;
  }

  -- One more `segment.queued` of the segment `j`, that is not open and was not queued yet
  queued_once :
      (s s' : StreamSession S) (j : ℕ) {h : ℕ} (slack : ℕ)
      → HasBooks i h 0 s
      → s'.segment ≡ none
      → s'.next_index ≡ s.next_index
      → s'.cancelled ≡ s.cancelled
      → (i ≡ j → i < s.next_index)
      → (i ≡ j → queued i s ≡ 0)
      → queued i s' ≡ queued i s + one_if (i == j)
      → ended i s' ≡ ended i s
      → overflowed s' ≡ overflowed s
      → waits i s.pending ≤ waits i s'.pending
      → waits i s'.pending ≤ waits i s.pending + one_if (i == j)
      → one_if (i == j) ≤ waits i s'.pending - waits i s.pending + slack
      → HasBooks i h slack s'
  queued_once s s' j slack b closed next same past fresh q e o more w l =
      elim (Bool-cases (i == j)) [
        | inl mine ↦
            let here : i ≡ j = (==_iff i j).0 mine in
            let one = ap one_if mine in
            record {
              opened = λ open'. cc;
              future = λ le. absurd (omega (arith, next, past here));
              once = omega (arith, q, one, fresh here);
              bounded = omega (arith, b.bounded, q, e, w, l, more, one, fresh here);
              kept = omega (arith, b.kept, q, e, o, w, l, more, one, ap one_if same, fresh here);
            }
        | inr other ↦
            let zero' = ap one_if other in
            record {
              opened = λ open'. cc;
              future = λ le. omega (arith, b.future (omega (arith, next)), q, zero');
              once = omega (arith, b.once, q, zero');
              bounded = omega (arith, b.bounded, q, e, w, l, more, zero');
              kept = omega (arith, b.kept, q, e, o, w, l, more, zero', ap one_if same);
            }
      ]

  -- A segment that is no longer open and was not queued yet is queued.
  pub enqueue-Settles :
      (s : StreamSession S) (j : ℕ) (pcm : List ℕ) (end_sample : ℕ) (boundary : Boundary) {h : ℕ}
      → HasBooks i h 0 s
      → s.segment ≡ none
      → (i ≡ j → i < s.next_index)
      → (i ≡ j → queued i s ≡ 0)
      → Settles h (enqueue s j pcm end_sample boundary)
  unfolding enqueue
  enqueue-Settles s j pcm end_sample boundary b closed past fresh =
      let event = segment_queued j (segment_at s j).start_sample end_sample boundary in
      let item : ClosedSegment = record {
        segment = j;
        pcm = pcm;
        end_sample = end_sample;
        boundary = boundary;
      } in
      let q = tally-append (queues i) s.sent event in
      let e = tally-append (ends i) s.sent event in
      let o = tally-append overflows s.sent event in
      elim (Bool-cases (leb max_pending_segments (length s.pending))) [
        | inl full ↦ rw full (
          queued_once s _ j 1 b closed refl refl past fresh q (omega (arith, e)) (omega (arith, o))
              (omega arith) (omega arith) (ground arith),
          cc,
          cc,
        )
        | inr room ↦ rw room (
            queued_once s _ j 0 b closed refl refl past fresh q (omega (arith, e))
              (omega (arith, o)) (omega (arith, waits-append i s.pending item))
              (omega (arith, waits-append i s.pending item))
              (omega (arith, waits-append i s.pending item)))
      ]

  reopen-HasBooks :
      (s : StreamSession S) (boundary : Segmenter.Boundary) (end_sample : ℕ) {h : ℕ}
      → HasBooks i h 0 s
      → HasBooks i h 0 (reopen boundary end_sample s)
  unfolding reopen
  reopen-HasBooks s Segmenter.Boundary.max_duration end_sample b =
      HasBooks-IsSame (open_segment-HasBooks s end_sample b) (IsSame-emit i _ _ refl refl refl)
  reopen-HasBooks s Segmenter.Boundary.silence end_sample b = b
  reopen-HasBooks s Segmenter.Boundary.stop end_sample b = b

  pub close_segment-Settles :
      (s : StreamSession S) (o : Option ℕ) (c : SegmentClosed) {h : ℕ}
      → s.segment ≡ o
      → HasBooks i h 0 s
      → Settles h (close_segment s o c)
  unfolding close_segment open_segment
  close_segment-Settles s (some j) c {h} e b =
      let fresh : (i ≡ j → queued i s ≡ 0) = λ m. (b.opened (e ∙ ap some (sym m))).0 in
      let past : (i ≡ j → i < s.next_index) = λ m. (b.opened (e ∙ ap some (sym m))).1 in
      Settles->>= h _ _
        (enqueue-Settles _ j c.pcm c.end_sample (boundary_of c.boundary)
          (HasBooks-IsSame (unset-HasBooks s b) (settle_preview_soon-IsSame i _ j)) refl past fresh)
        (λ q k. reopen-HasBooks q c.boundary c.end_sample k)
  close_segment-Settles s none c {h} e b =
      let s' = record (open_segment c.start_sample s) { segment = none } in
      Settles->>= h _ _
        (enqueue-Settles _ s.next_index c.pcm c.end_sample (boundary_of c.boundary)
          (HasBooks-IsSame (unset-HasBooks _ (open_segment-HasBooks s c.start_sample b))
            (settle_preview_soon-IsSame i s' s.next_index))
          refl (λ m. omega (arith, m)) (λ m. b.future (omega (arith, m))))
        (λ q k. reopen-HasBooks q c.boundary c.end_sample k)
