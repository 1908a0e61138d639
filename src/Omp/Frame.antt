-- ===== src/Omp/Frame.antt =====
-- `readReadyFrame` ends, within its bound, with the first line of the input.
use delegatd.Prelude.{
  ◌≡◌, ◌≢◌, refl, ap, sym, ◌∙◌, subst, arith, ℕ, zero, suc, ◌+◌, ◌≤◌, ◌<◌, false, ◌&&◌, not, [],
  ◌∷◌, ◌++◌, GoString, is_empty, contains_byte, Option, some, ltb, length, length-append,
  append_assoc, Bool-cases, inl, inr, Result, ok, some_injective, ok_injective,
}
use delegatd.Domain.Snapshot.{trim_newline, trim_newline-append}
use delegatd.Omp.{
  max_ready_frame_size, SliceEnd, at_newline, buffer_full, stopped, LineReader, IsLineReader, ended,
  read_ready_frame,
}

-- A part that passed the test of the size fits, and is longer than nothing.
fits :
    (frame part : GoString)
    → part ≢ []
    → (not (is_empty part) && ltb max_ready_frame_size (length frame + length part)) ≡ false
    → (length (frame ++ part) ≤ max_ready_frame_size) × (length frame < length (frame ++ part))
fits frame [] full e = absurd (full refl)
fits frame (b ∷ part) full e =
    (ground (arith, length-append frame (b ∷ part)), ground (arith, length-append frame (b ∷ part)))

clean_append :
    (s t : GoString)
    → contains_byte 10 s ≡ false
    → contains_byte 10 t ≡ false
    → contains_byte 10 (s ++ t) ≡ false
unfolding contains_byte
clean_append [] t h k = k
clean_append (b ∷ s) t h k = ground (arith, clean_append s t)

line_full : (front : GoString) → front ++ 10 ∷ [] ≢ []
line_full [] e = cc
line_full (b ∷ front) e = cc

no_newline : contains_byte 10 [] ≡ false
unfolding contains_byte
no_newline = refl

module _ (lines : LineReader) (laws : IsLineReader lines) where
  ended-returns :
      (how : SliceEnd) (frame : GoString) (r : lines.Reader)
      (next : Option (Result GoString × lines.Reader))
      → (how ≡ buffer_full → (out : Result GoString × lines.Reader) × (next ≡ some out))
      → (out : Result GoString × lines.Reader) × (ended lines how frame r next ≡ some out)
  ended-returns at_newline frame r next h = (_, refl)
  ended-returns buffer_full frame r next h = h refl
  ended-returns (stopped e) frame r next h = (_, refl)

  read_ready_frame-grows :
      (fuel : ℕ) (frame : GoString) (r : lines.Reader)
      → length frame ≤ max_ready_frame_size
      → max_ready_frame_size < fuel + length frame
      → (out : Result GoString × lines.Reader) × (read_ready_frame lines fuel frame r ≡ some out)
  unfolding read_ready_frame
  read_ready_frame-grows zero frame r small enough = absurd (omega arith)
  read_ready_frame-grows (suc fuel) frame r small enough =
      let slice = lines.read_slice r in
      elim (Bool-cases
        (not (is_empty slice.0.0) && ltb max_ready_frame_size (length frame + length slice.0.0))) [
          | inl e ↦ rw e ((_, refl))
          | inr e ↦ rw e (
              ended-returns slice.0.1 (frame ++ slice.0.0) slice.1 _ (λ again.
                let (short, longer) = fits frame slice.0.0 (laws.full r again).0 e in
                read_ready_frame-grows fuel (frame ++ slice.0.0) slice.1 short (omega arith)))
        ]

  -- With one unit of fuel more than a frame may have bytes, the loop ends: each slice that fills the
  -- buffer brings bytes, for any reader that keeps to `IsLineReader`.
  pub read_ready_frame-returns :
      (fuel : ℕ) (r : lines.Reader)
      → max_ready_frame_size < fuel
      → (out : Result GoString × lines.Reader) × (read_ready_frame lines fuel [] r ≡ some out)
  read_ready_frame-returns fuel r enough =
      read_ready_frame-grows fuel [] r (omega arith) (omega arith)

  -- The frame is the rest of the line, and fits.
  record IsLine (frame : GoString) (r : lines.Reader) (bytes : GoString) (r' : lines.Reader)
      : Type 0 where
    one_line : contains_byte 10 bytes ≡ false
    short : length bytes < max_ready_frame_size
    whole : frame ++ laws.unread r ≡ bytes ++ 10 ∷ laws.unread r'

  ended-IsLine :
      (how : SliceEnd) (frame : GoString) (r : lines.Reader)
      (next : Option (Result GoString × lines.Reader)) (bytes : GoString) (r' : lines.Reader)
      → (lines.read_slice r).0.1 ≡ how
      → contains_byte 10 frame ≡ false
      → (not (is_empty (lines.read_slice r).0.0)
          && ltb max_ready_frame_size (length frame + length (lines.read_slice r).0.0))
        ≡ false
      → (how ≡ buffer_full → next ≡ some (ok bytes, r') → IsLine frame r bytes r')
      → ended lines how (frame ++ (lines.read_slice r).0.0) (lines.read_slice r).1 next
        ≡ some (ok bytes, r')
      → IsLine frame r bytes r'
  ended-IsLine at_newline frame r next bytes r' how clean small again h =
      let (front, shape, clean_front, all) = laws.line r how in
      let part = (lines.read_slice r).0.0 in
      let out = some_injective h in
      let line : frame ++ part ≡ (frame ++ front) ++ 10 ∷ [] =
        ap (λ p. frame ++ p) shape ∙ sym (append_assoc frame front (10 ∷ [])) in
      let same : frame ++ front ≡ bytes =
        sym (ap trim_newline line ∙ trim_newline-append (frame ++ front))
        ∙ ok_injective (ap (λ (o : Result GoString × lines.Reader). o.0) out) in
      let after : (lines.read_slice r).1 ≡ r' =
        ap (λ (o : Result GoString × lines.Reader). o.1) out in
      let (short, longer) = fits frame part (λ e. line_full front (sym shape ∙ e)) small in
      record {
        one_line =
            subst (λ s. contains_byte 10 s ≡ false) same
              (clean_append frame front clean clean_front);
        short =
            subst (λ s. length s < max_ready_frame_size) same
              (omega (
                arith,
                subst (λ s. length s ≤ max_ready_frame_size) line short,
                length-append (frame ++ front) (10 ∷ []),
              ));
        whole =
            ap (λ s. frame ++ s) all
            ∙ sym (append_assoc frame part (laws.unread (lines.read_slice r).1))
            ∙ ap (λ s. s ++ laws.unread (lines.read_slice r).1) line
            ∙ append_assoc (frame ++ front) (10 ∷ []) (laws.unread (lines.read_slice r).1)
            ∙ ap (λ s. s ++ 10 ∷ laws.unread (lines.read_slice r).1) same
            ∙ ap (λ x. bytes ++ 10 ∷ laws.unread x) after;
      }
  ended-IsLine buffer_full frame r next bytes r' how clean small again h = again refl h
  ended-IsLine (stopped e) frame r next bytes r' how clean small again h =
      cc (ap (λ (o : Result GoString × lines.Reader). o.0) (some_injective h))

  read_ready_frame-IsLine :
      (fuel : ℕ) (frame : GoString) (r : lines.Reader) (bytes : GoString) (r' : lines.Reader)
      → contains_byte 10 frame ≡ false
      → read_ready_frame lines fuel frame r ≡ some (ok bytes, r')
      → IsLine frame r bytes r'
  unfolding read_ready_frame
  read_ready_frame-IsLine zero frame r bytes r' clean h = cc
  read_ready_frame-IsLine (suc fuel) frame r bytes r' clean h =
      let slice = lines.read_slice r in
      elim (Bool-cases
        (not (is_empty slice.0.0) && ltb max_ready_frame_size (length frame + length slice.0.0))) [
          | inl e ↦
              cc (ap (λ (o : Result GoString × lines.Reader). o.0) (some_injective (rw e at h)))
          | inr e ↦
              ended-IsLine slice.0.1 frame r _ bytes r' refl clean e
                (λ full more.
                  let (some_bytes, clean_part, all) = laws.full r full in
                  let rest =
                    read_ready_frame-IsLine fuel (frame ++ slice.0.0) slice.1 bytes r'
                      (clean_append frame slice.0.0 clean clean_part) more in
                  record {
                    one_line = rest.one_line;
                    short = rest.short;
                    whole =
                        ap (λ s. frame ++ s) all
                        ∙ sym (append_assoc frame slice.0.0 (laws.unread slice.1))
                        ∙ rest.whole;
                  })
                (rw e at h)
        ]

  -- A frame that was read is the first line of the input without its line feed, and shorter than
  -- 1 MiB, for any reader that keeps to `IsLineReader`.
  pub read_ready_frame-first_line :
      (fuel : ℕ) (r : lines.Reader) (bytes : GoString) (r' : lines.Reader)
      → read_ready_frame lines fuel [] r ≡ some (ok bytes, r')
      → (contains_byte 10 bytes ≡ false)
        × (length bytes < max_ready_frame_size)
        × (laws.unread r ≡ bytes ++ 10 ∷ laws.unread r')
  read_ready_frame-first_line fuel r bytes r' h =
      let l = read_ready_frame-IsLine fuel [] r bytes r' no_newline h in
      (l.one_line, l.short, l.whole)
