-- ===== src/Stream/Overlap/Stripping.antt =====
-- What `strip_carried_overlap` of api/stream.py removes: the head of the text that covers the match.
use tea_asr_service.Prelude.{
  ℕ, ◌+◌, ◌-◌, ◌≤◌, ◌≡◌, sym, ap, inl, inr, min, Bool-cases, ◌||◌, Option, none, some, List, ◌++◌,
  arith, ltb, length, take, drop, get_or, length-take,
}
use tea_asr_service.Stream.Text.{Tables}
use tea_asr_service.Stream.Overlap.{
  carry_overlap_min_chars, carry_overlap_max_chars, Score, last, best_overlap, normalize_from,
  chars_of, ends_of, normalize_carry_text, separators, cut_after, strip_carried_overlap,
}
use tea_asr_service.Stream.Overlap.Matching.{IsOverlap, Overlaps, best_overlap-Overlaps}
use tea_asr_service.Stream.Overlap.Covering.{
  get_or-take, normalize-covers, length-chars_of, covered_chars,
}

module _ (t : Tables) where
  -- `removed` is the part of the text that is taken away, in the characters that are compared.
  pub record IsStripped (previous current rest : List ℕ) (size : ℕ) : Type 0 where
    pub suffix_size : ℕ
    pub cut : ℕ
    pub more : List ℕ
    pub rest_drops : rest ≡ drop cut current
    pub overlap :
        IsOverlap
          (last carry_overlap_max_chars (normalize_carry_text t previous).0)
          (take carry_overlap_max_chars (normalize_carry_text t current).0)
          suffix_size
          size
    pub removed :
        (normalize_carry_text t (take cut current)).0
        ≡ take size (normalize_carry_text t current).0 ++ more

  cut_after-IsStripped :
      (previous current rest : List ℕ) (size : ℕ) (best : Option Score)
      → Overlaps
          (last carry_overlap_max_chars (normalize_carry_text t previous).0)
          (take carry_overlap_max_chars (normalize_carry_text t current).0)
          best
      → cut_after t current (take carry_overlap_max_chars (normalize_carry_text t current).1) best
        ≡ some (rest, size)
      → IsStripped previous current rest size
  unfolding cut_after normalize_carry_text
  cut_after-IsStripped previous current rest size none o e = cc
  cut_after-IsStripped previous current rest size (some best) (m, o) e =
      let pairs = normalize_from t 0 current in
      let p = best.prefix_size in
      let limit = carry_overlap_max_chars in
      let end = get_or (take limit (ends_of t pairs)) (p - 1) 0 in
      let cut = end + separators t (drop end current) in
      let bound = length-take {0} limit (chars_of t pairs) in
      let enough : p ≤ min limit (length pairs) =
        omega (arith, o.prefix_within, bound, length-chars_of t pairs) in
      let at : end ≡ get_or (ends_of t pairs) (p - 1) 0 =
        get_or-take limit (ends_of t pairs) (p - 1) (omega (arith, enough, o.prefix_long)) in
      let (above, covers) =
        normalize-covers t 0 (p - 1) current (omega (arith, enough, o.prefix_long)) in
      let zero' : get_or (ends_of t pairs) (p - 1) 0 - 0 ≡ end = omega (arith, at) in
      let reach : p ≤ length (normalize_from t 0 (take end current)) = omega (
        arith,
        covers,
        o.prefix_long,
        ap (λ n. length (normalize_from t 0 (take n current))) zero',
      ) in
      let (more, removed') = covered_chars t p end cut current (omega arith) reach in
      let drops : drop cut current ≡ rest = ground (arith, e) in
      let same : p ≡ size = ground (arith, e) in
      rw (← same) (record {
        suffix_size = m;
        cut = cut;
        more = more;
        rest_drops = sym drops;
        overlap = o;
        removed = removed';
      })

  -- When a repetition is stripped, with `size` characters of the decode: these match a suffix of the
  -- previous final, both at least four characters long (case, width, punctuation and white space left
  -- out), within an edit distance of a quarter of the longer; what is left is the decode from a cut
  -- on, and what is removed is all of those characters, and perhaps more.
  pub strip_carried_overlap-IsStripped :
      (previous current rest : List ℕ) (size : ℕ)
      → strip_carried_overlap t previous current ≡ some (rest, size)
      → IsStripped previous current rest size
  unfolding strip_carried_overlap
  strip_carried_overlap-IsStripped previous current rest size e =
      let p = (normalize_carry_text t previous).0 in
      let c = (normalize_carry_text t current).0 in
      elim (Bool-cases
        (ltb (length p) carry_overlap_min_chars || ltb (length c) carry_overlap_min_chars)) [
          | inl short ↦ ground (arith, e, short)
          | inr long ↦
              cut_after-IsStripped previous current rest size
                (best_overlap (last carry_overlap_max_chars p) (take carry_overlap_max_chars c))
                (best_overlap-Overlaps (last carry_overlap_max_chars p)
                  (take carry_overlap_max_chars c))
                (rw long at e)
        ]
