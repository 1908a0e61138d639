-- ===== src/Docker/Output.antt =====
-- What the probe of the Docker daemon reads of its command's output.
use delegatd.Prelude.{
  ◌≡◌, ◌≢◌, refl, ap, sym, ◌∙◌, subst, ℕ, ◌-◌, ◌≤◌, arith, true, false, List, [], ◌∷◌, ◌++◌,
  GoString, All, concat, append_nil, append_assoc, length, length-append, take, take_all,
  take-append_here, take-append_past, ltb, leb, Bool-cases, inl, inr,
}
use delegatd.Docker.{
  max_version_output_size, LimitedBuffer, empty_buffer, overflowed, write, copy_output,
}

-- The buffer is within its limit, and nothing was refused.
record IsOpen (b : LimitedBuffer) : Type 0 where
  small : length b.bytes ≤ max_version_output_size
  accepted : b.too_large ≡ false

-- What the buffer holds, when all of `whole` was to be written.
record Holds (whole : GoString) (b : LimitedBuffer) : Type 0 where
  bytes : b.bytes ≡ take max_version_output_size whole
  too_large : b.too_large ≡ ltb max_version_output_size (length whole)

take_none : (s : GoString) → take 0 s ≡ []
unfolding take
take_none s = refl

small_size : (n : ℕ) → n ≤ max_version_output_size → false ≡ ltb max_version_output_size n
small_size n h = ground arith

-- The buffer was full before a part that is not empty.
full-Holds :
    (w rest : GoString) (c : ℕ)
    → length w ≤ max_version_output_size
    → leb max_version_output_size (length w) ≡ true
    → Holds (w ++ c ∷ rest) (overflowed w)
full-Holds w rest c small e =
    let size : length w ≡ max_version_output_size = ground arith in
    record {
      bytes = sym (
          take-append_past max_version_output_size w (c ∷ rest) small
          ∙ ap (λ n. w ++ take n (c ∷ rest)) (omega arith)
          ∙ ap (λ r. w ++ r) (take_none (c ∷ rest))
          ∙ append_nil w);
      too_large = ground (arith, length-append w (c ∷ rest));
    }

-- The part did not fit.
cut-Holds :
    (w p rest : GoString)
    → length w ≤ max_version_output_size
    → ltb (max_version_output_size - length w) (length p) ≡ true
    → Holds (w ++ (p ++ rest)) (overflowed (w ++ take (max_version_output_size - length w) p))
cut-Holds w p rest small l =
    let past : max_version_output_size - length w ≤ length p = ground arith in
    record {
      bytes = sym (
          take-append_past max_version_output_size w (p ++ rest) small
          ∙ ap (λ r. w ++ r) (take-append_here (max_version_output_size - length w) p rest past));
      too_large = ground (arith, length-append w (p ++ rest), length-append p rest);
    }

copy_output-Holds :
    (ps : List GoString) (b : LimitedBuffer)
    → All (λ p. p ≢ []) ps
    → IsOpen b
    → Holds (b.bytes ++ concat ps) (copy_output ps b)
unfolding copy_output write
copy_output-Holds [] b full o = record {
  bytes = sym (
      take_all max_version_output_size (b.bytes ++ [])
        (subst (λ w. length w ≤ max_version_output_size) (sym (append_nil b.bytes)) o.small)
      ∙ append_nil b.bytes);
  too_large =
      o.accepted
      ∙ small_size (length (b.bytes ++ []))
          (subst (λ w. length w ≤ max_version_output_size) (sym (append_nil b.bytes)) o.small);
}
copy_output-Holds ([] ∷ ps) b full o = absurd (full.0 refl)
copy_output-Holds ((c ∷ p) ∷ ps) b full o =
    elim (Bool-cases (leb max_version_output_size (length b.bytes))) [
      | inl e ↦ rw e (full-Holds b.bytes (p ++ concat ps) c o.small e)
      | inr e ↦
          elim (Bool-cases (ltb (max_version_output_size - length b.bytes) (length (c ∷ p)))) [
            | inl l ↦ rw e (rw l (cut-Holds b.bytes (c ∷ p) (concat ps) o.small l))
            | inr l ↦ rw e (
                rw l (
                  subst (λ w. Holds w (copy_output ps (record b { bytes = b.bytes ++ c ∷ p })))
                    (append_assoc b.bytes (c ∷ p) (concat ps))
                    (copy_output-Holds ps (record b { bytes = b.bytes ++ c ∷ p }) full.1
                      (record {
                        small = ground (arith, length-append b.bytes (c ∷ p));
                        accepted = o.accepted;
                      }))))
          ]
    ]

-- The buffer of the probe holds the first 64 KiB of what the command wrote, in parts that are not
-- empty, and is marked too large exactly when there is more.
pub copy_output-take :
    (ps : List GoString)
    → All (λ p. p ≢ []) ps
    → ((copy_output ps empty_buffer).bytes ≡ take max_version_output_size (concat ps))
      × ((copy_output ps empty_buffer).too_large ≡ ltb max_version_output_size (length (concat ps)))
copy_output-take ps full =
    let h =
      copy_output-Holds ps empty_buffer full (record { small = omega arith; accepted = refl }) in
    (h.bytes, h.too_large)
