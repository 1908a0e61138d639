-- ===== src/Domain/Snapshot.antt =====
-- internal/domain/task.go: `Snapshot`, `NewSnapshot`, `ParseSnapshot` and `canonicalJSON`.
use delegatd.Prelude.{
  ℕ, ◌≡◌, ◌≢◌, refl, ap, List, [], ◌∷◌, ◌++◌, arith, GoString, codes, is_empty, Result, ok, err,
  plain, ◌>>=◌, >>=-eq-ok, ok_injective, All, ◌∙◌, sym, subst, length, ltb, if◌then◌else◌, eqb,
}
use delegatd.Domain.Json.{Json, Codec, IsCodec, Decoded, value, eof, malformed}

abbrev pub max_snapshot_size : ℕ
max_snapshot_size = 16777216

-- The canonical bytes; the zero value has none.
pub record Snapshot : Type 0 where
  pub bytes : GoString

-- `bytes.TrimSuffix(b, []byte{'\n'})`
pub trim_newline : GoString → GoString
trim_newline [] = []
trim_newline (b ∷ []) = if eqb b 10 then [] else b ∷ []
trim_newline (b ∷ c ∷ s) = b ∷ trim_newline (c ∷ s)

pub trim_newline-append : (s : GoString) → trim_newline (s ++ 10 ∷ []) ≡ s
unfolding trim_newline
trim_newline-append [] = refl
trim_newline-append (b ∷ []) = refl
trim_newline-append (b ∷ c ∷ s) = ap (λ r. b ∷ r) (trim_newline-append (c ∷ s))

-- The second call of `Decode`, after the value `v`.
only_value : Json → Decoded → Result Json
only_value v eof = ok v
only_value v (value w more) = err (plain (codes "snapshot contains multiple JSON values"))
only_value v (malformed e) = err e

-- The value that the input holds, if it holds one and nothing after it.
single_value : Codec → Decoded → Result Json
unfolding only_value
single_value codec eof = err (plain (codes "EOF"))
single_value codec (malformed e) = err e
single_value codec (value v rest) = only_value v (codec.decode rest)

limit_size : GoString → Result GoString
limit_size canonical =
    if ltb max_snapshot_size (length canonical)
    then err (plain (codes "snapshot exceeds 16 MiB"))
    else ok canonical

canonical_value : Codec → GoString → Result GoString
unfolding single_value trim_newline limit_size
canonical_value codec input = do
  v ← single_value codec (codec.decode input)
  buffer ← codec.encode v
  limit_size (trim_newline buffer)

unfoldable pub canonical_json : Codec → GoString → Result GoString
unfolding canonical_value
canonical_json codec input =
    if is_empty input
    then err (plain (codes "empty JSON snapshot"))
    else canonical_value codec input

unfoldable pub parse_snapshot : Codec → GoString → Result Snapshot
parse_snapshot codec input = do
  canonical ← canonical_json codec input
  ok (record { bytes = canonical })

unfoldable pub new_snapshot : Codec → Json → Result Snapshot
new_snapshot codec v = do input ← codec.marshal v; parse_snapshot codec input

-- A snapshot in canonical form: parsing its bytes gives it back.
abbrev pub IsCanonical : Codec → Snapshot → Type 0
IsCanonical codec s = parse_snapshot codec s.bytes ≡ ok s

-- Any number of snapshots, all in canonical form.
abbrev pub AllCanonical : Codec → List Snapshot → Type 0
AllCanonical codec = All (IsCanonical codec)

only_value-eq : (w : Json) (d : Decoded) {v : Json} → only_value w d ≡ ok v → w ≡ v
unfolding only_value
only_value-eq w eof h = cc
only_value-eq w (value u more) h = cc
only_value-eq w (malformed e) h = cc

single_value-inversion :
    (codec : Codec) (d : Decoded) {v : Json}
    → single_value codec d ≡ ok v
    → (rest : GoString) × (d ≡ value v rest)
unfolding single_value
single_value-inversion codec eof h = cc
single_value-inversion codec (malformed e) h = cc
single_value-inversion codec (value w rest) h =
    (rest, ap (λ u. value u rest) (only_value-eq w (codec.decode rest) h))

limit_size-eq : (s : GoString) {t : GoString} → limit_size s ≡ ok t → s ≡ t
unfolding limit_size
limit_size-eq s h = ground arith

-- A text that decodes to a value which is encoded as that text keeps its bytes.
pub parse_snapshot-bytes :
    (codec : Codec) (input : GoString) (v : Json) (s : Snapshot)
    → codec.decode [] ≡ eof
    → codec.decode input ≡ value v []
    → codec.encode v ≡ ok (input ++ 10 ∷ [])
    → parse_snapshot codec input ≡ ok s
    → s.bytes ≡ input
unfolding parse_snapshot canonical_json canonical_value single_value only_value
parse_snapshot-bytes codec [] v s ends d e h = cc
parse_snapshot-bytes codec (b ∷ input) v s ends d e h =
    let (t, ht, hs) = >>=-eq-ok (canonical_json codec (b ∷ input)) _ h in
    let (w, hw, h1) = >>=-eq-ok (single_value codec (codec.decode (b ∷ input))) _ ht in
    let (buffer, hb, hl) = >>=-eq-ok (codec.encode w) _ h1 in
    let whole : single_value codec (codec.decode (b ∷ input)) ≡ ok v = rw d (rw ends refl) in
    let same : w ≡ v = ok_injective (sym hw ∙ whole) in
    let same_buffer : buffer ≡ (b ∷ input) ++ 10 ∷ [] =
      ok_injective (sym hb ∙ ap codec.encode same ∙ e) in
    ap (λ (r : Snapshot). r.bytes) (sym (ok_injective hs))
    ∙ sym (limit_size-eq _ hl)
    ∙ ap trim_newline same_buffer
    ∙ trim_newline-append (b ∷ input)

module _ (codec : Codec) (laws : IsCodec codec) where
  canonical_text :
      (s : GoString) (v : Json)
      → s ≢ []
      → codec.decode s ≡ value v []
      → (written : GoString) → codec.encode v ≡ ok written
      → trim_newline written ≡ s
      → limit_size s ≡ ok s
      → canonical_json codec s ≡ ok s
  unfolding canonical_json canonical_value single_value
  canonical_text [] v full d w e t l = absurd (full refl)
  canonical_text (b ∷ s) v full d w e t l = rw d (rw (laws.end_of_input) (rw e (rw t l)))

  canonical_value_twice :
      (input s : GoString) → canonical_value codec input ≡ ok s → canonical_json codec s ≡ ok s
  unfolding canonical_value
  canonical_value_twice input s h =
      let (v, hv, h') = >>=-eq-ok (single_value codec (codec.decode input)) _ h in
      let (w, hw, hl) = >>=-eq-ok (codec.encode v) _ h' in
      let (rest, d) = single_value-inversion codec (codec.decode input) hv in
      let (t, shape, full, again) = laws.stable input rest w v d hw in
      let same : t ≡ s =
        sym (trim_newline-append t) ∙ ap trim_newline (sym shape) ∙ limit_size-eq _ hl in
      canonical_text s v (λ e. full (same ∙ e)) (ap codec.decode (sym same) ∙ again) w hw
        (limit_size-eq _ hl) (ap limit_size (sym (limit_size-eq _ hl)) ∙ hl)

  canonical_json_twice :
      (input s : GoString) → canonical_json codec input ≡ ok s → canonical_json codec s ≡ ok s
  unfolding canonical_json
  canonical_json_twice [] s h = cc
  canonical_json_twice (b ∷ input) s h = canonical_value_twice (b ∷ input) s h

  -- Under the laws of the codec, parsing a snapshot gives a snapshot in canonical form: parsing its
  -- bytes again gives it back.
  pub parse_snapshot-IsCanonical :
      (input : GoString) (s : Snapshot) → parse_snapshot codec input ≡ ok s → IsCanonical codec s
  unfolding parse_snapshot
  parse_snapshot-IsCanonical input s h =
      let (t, ht, hs) = >>=-eq-ok (canonical_json codec input) _ h in
      let same : record { bytes = t } ≡ s = cc hs in
      subst (IsCanonical codec) same (rw (canonical_json_twice input t ht))

  -- Under the laws of the codec, a snapshot that is made from a value is in canonical form.
  pub new_snapshot-IsCanonical :
      (v : Json) (s : Snapshot) → new_snapshot codec v ≡ ok s → IsCanonical codec s
  unfolding new_snapshot
  new_snapshot-IsCanonical v s h =
      let (t, ht, hs) = >>=-eq-ok (codec.marshal v) _ h in parse_snapshot-IsCanonical t s hs
