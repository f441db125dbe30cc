-- ===== src/Stream/Machine/Ledger/Serving.antt =====
-- The part of the books that the consumer of api/stream.py (tea_asr/api/stream.py) changes, and how it
-- takes a segment from the queue.
use tea_asr_service.Prelude.{
  ℕ, ◌+◌, ◌≤◌, ◌≡◌, refl, ◌∙◌, Bool, true, false, Option, none, some, List, [], ◌∷◌, ◌++◌, arith,
  ◌==◌, if◌then◌else◌,
}
use tea_asr_service.Stable.Tracker.{StablePrefixTracker, StableUpdate}
use tea_asr_service.Stream.{StreamSession, ClosedSegment, SessionEvent}
use tea_asr_service.Stream.Consumer.{ConsumerPhase, transcribe_segment, take_from, take_next}
use tea_asr_service.Stream.Transcription.{finalized}
use tea_asr_service.Stream.Machine.Ledger.{
  queues, ends, overflows, tally-append, waits, holds, queued, ended, overflowed, IsSame,
  IsSame-refl, IsSame-trans,
}
use tea_asr_service.Stream.Machine.Ledger.Previews.{modify-IsSame, emit_stable-IsSame}

-- From the session `s` with `h` segments `i` in the consumer's hands to `s'` with `h'`
pub record IsServed {S : Type 0} (i : ℕ) (s : StreamSession S) (h : ℕ) (s' : StreamSession S)
    (h' : ℕ) : Type 0 where
  pub queued_same : queued i s' ≡ queued i s
  pub overflowed_same : overflowed s' ≡ overflowed s
  pub segment_same : s'.segment ≡ s.segment
  pub next_index_same : s'.next_index ≡ s.next_index
  pub cancelled_same : s'.cancelled ≡ s.cancelled
  pub at_most : ended i s' + waits i s'.pending + h' ≤ ended i s + waits i s.pending + h
  pub none_lost :
      s.cancelled ≡ false → ended i s + waits i s.pending + h ≤ ended i s' + waits i s'.pending + h'

module _ {S : Type 0} (i : ℕ) where
  pub IsSame→IsServed : {s s' : StreamSession S} (h : ℕ) → IsSame i s s' → IsServed i s h s' h
  IsSame→IsServed h a = record {
    queued_same = a.queued_same;
    overflowed_same = a.overflowed_same;
    segment_same = a.segment_same;
    next_index_same = a.next_index_same;
    cancelled_same = a.cancelled_same;
    at_most = omega (arith, a.ended_same, a.waits_same);
    none_lost = λ _. omega (arith, a.ended_same, a.waits_same);
  }

  pub IsServed-IsSame :
      {s t u : StreamSession S} {h h' : ℕ}
      → IsServed i s h t h'
      → IsSame i t u
      → IsServed i s h u h'
  IsServed-IsSame a b = record {
    queued_same = b.queued_same ∙ a.queued_same;
    overflowed_same = b.overflowed_same ∙ a.overflowed_same;
    segment_same = b.segment_same ∙ a.segment_same;
    next_index_same = b.next_index_same ∙ a.next_index_same;
    cancelled_same = b.cancelled_same ∙ a.cancelled_same;
    at_most = omega (arith, a.at_most, b.ended_same, b.waits_same);
    none_lost = λ on. omega (arith, a.none_lost on, b.ended_same, b.waits_same);
  }

  pub IsSame-IsServed :
      {s t u : StreamSession S} {h h' : ℕ}
      → IsSame i s t
      → IsServed i t h u h'
      → IsServed i s h u h'
  IsSame-IsServed a b = record {
    queued_same = b.queued_same ∙ a.queued_same;
    overflowed_same = b.overflowed_same ∙ a.overflowed_same;
    segment_same = b.segment_same ∙ a.segment_same;
    next_index_same = b.next_index_same ∙ a.next_index_same;
    cancelled_same = b.cancelled_same ∙ a.cancelled_same;
    at_most = omega (arith, b.at_most, a.ended_same, a.waits_same);
    none_lost =
        λ on. omega (arith, b.none_lost (a.cancelled_same ∙ on), a.ended_same, a.waits_same);
  }

  pub failed_segments-IsSame :
      (s : StreamSession S) (failed : List ℕ) → IsSame i s (record s { failed_segments = failed })
  failed_segments-IsSame s failed = record {
    queued_same = refl;
    ended_same = refl;
    overflowed_same = refl;
    waits_same = refl;
    segment_same = refl;
    next_index_same = refl;
    cancelled_same = refl;
  }

  -- An event that ends the segment `j`
  pub ends-IsServed :
      (s : StreamSession S) (e : SessionEvent) (j : ℕ)
      → queues i e ≡ 0
      → overflows e ≡ 0
      → ends i e ≡ (if i == j then 1 else 0)
      → IsServed i s (if i == j then 1 else 0) (record s { sent = s.sent ++ e ∷ [] }) 0
  ends-IsServed s e j q o d = record {
    queued_same = omega (arith, tally-append (queues i) s.sent e, q);
    overflowed_same = omega (arith, tally-append overflows s.sent e, o);
    segment_same = refl;
    next_index_same = refl;
    cancelled_same = refl;
    at_most = omega (arith, tally-append (ends i) s.sent e, d);
    none_lost = λ _. omega (arith, tally-append (ends i) s.sent e, d);
  }

  -- A cancelled session drops what the consumer holds.
  pub dropped-IsServed : (s : StreamSession S) (h : ℕ) → s.cancelled ≡ true → IsServed i s h s 0
  dropped-IsServed s h off = record {
    queued_same = refl;
    overflowed_same = refl;
    segment_same = refl;
    next_index_same = refl;
    cancelled_same = refl;
    at_most = omega arith;
    none_lost = λ on. cc;
  }

  take_from-IsServed :
      (s : StreamSession S) (pending : List ClosedSegment)
      → s.pending ≡ pending
      → let r = take_from s pending in IsServed i s 0 r.0 (holds i r.1)
  unfolding take_from transcribe_segment
  take_from-IsServed s [] e = IsSame→IsServed 0 (IsSame-refl i s)
  take_from-IsServed s (closed ∷ pending) e = ground (arith, e)

  pub take_next-IsServed :
      (s : StreamSession S) → let r = take_next s in IsServed i s 0 r.0 (holds i r.1)
  unfolding take_next
  take_next-IsServed s = take_from-IsServed s s.pending refl

  pub finalized-IsSame :
      (o : Option (StablePrefixTracker × StableUpdate)) (s : StreamSession S) (j end_sample : ℕ)
      → IsSame i s (finalized o s j end_sample)
  finalized-IsSame none s j end_sample = IsSame-refl i s
  finalized-IsSame (some (tracker, update)) s j end_sample =
      IsSame-trans i (modify-IsSame i s j _) (emit_stable-IsSame i _ j update _ end_sample)

  pub previous_final-IsSame :
      (s : StreamSession S) (p : Option (ℕ × List ℕ)) → IsSame i s (record s { previous_final = p })
  previous_final-IsSame s p = record {
    queued_same = refl;
    ended_same = refl;
    overflowed_same = refl;
    waits_same = refl;
    segment_same = refl;
    next_index_same = refl;
    cancelled_same = refl;
  }

  -- What a turn of the consumer on the segment `j` gives
  abbrev pub Serves : StreamSession S → ℕ → StreamSession S × ConsumerPhase → Type 0
  Serves s j r = IsServed i s (if i == j then 1 else 0) r.0 (holds i r.1)

  pub Serves-if :
      (b : Bool) (s : StreamSession S) (j : ℕ) (x y : StreamSession S × ConsumerPhase)
      → (b ≡ true → Serves s j x)
      → Serves s j y
      → Serves s j (if b then x else y)
  Serves-if true s j x y h k = h refl
  Serves-if false s j x y h k = k

  pub Serves_waiting :
      (s : StreamSession S) (j : ℕ)
      → IsServed i s (if i == j then 1 else 0) s (if i == j then 1 else 0)
  Serves_waiting s j = IsSame→IsServed (if i == j then 1 else 0) (IsSame-refl i s)
