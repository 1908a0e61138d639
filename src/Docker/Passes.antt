-- ===== src/Docker/Passes.antt =====
-- When the diagnosis of the Docker daemon passes, and with what.
use delegatd.Prelude.{
  ◌≡◌, ◌≢◌, refl, ap, sym, ◌∙◌, arith, ◌≤◌, true, false, List, [], ◌++◌, GoString, codes, ◌==◌,
  eq_iff, eq_refl, Option, none, some, All, concat, length, take_all, Bool-cases, inl, inr, Result,
  ok, err, GoError, ◌↔◌,
}
use delegatd.Docker.{
  max_version_output_size, is_docker_version, LimitedBuffer, empty_buffer, copy_output, JsonText,
  decode_version_output, Command, Diagnosis, described, answered, ran, started, probe,
}
use delegatd.Docker.Output.{copy_output-take}

-- The command was found and ran, and the whole of its output names a version of the grammar and the
-- system linux.
pub record Reports (json : JsonText) (command : Command) (version : GoString) : Type 0 where
  pub found : (path : GoString) × (command.look_path ≡ ok path)
  pub finished : command.run ≡ none
  pub bounded : length (concat command.output) ≤ max_version_output_size
  pub decoded : decode_version_output json (concat command.output) ≡ ok (version, codes "linux")
  pub good_version : is_docker_version version ≡ true

abbrev pub passing : GoString → Diagnosis
passing version = (codes "Docker server " ++ version ++ codes " (linux)", none)

described-none :
    (r : Result (GoString × GoString)) (detail : GoString)
    → described r ≡ (detail, none)
    → (version : GoString) × (r ≡ ok (version, codes "linux"))
      × (is_docker_version version ≡ true)
      × (passing version ≡ (detail, none))
unfolding described
described-none (err e) detail h = cc (ap (λ (o : Diagnosis). o.1) h)
described-none (ok (v, s)) detail h = elim (Bool-cases (s == codes "linux")) [
  | inl e ↦ elim (Bool-cases (is_docker_version v)) [
    | inl g ↦
        (v, ap (λ x. ok (v, x)) ((eq_iff s (codes "linux")).0 e), g, sym (rw e (rw g refl)) ∙ h)
    | inr g ↦ cc (ap (λ (o : Diagnosis). o.1) (rw (e, g) at h))
  ]
  | inr e ↦ cc (ap (λ (o : Diagnosis). o.1) (rw e at h))
]

answered-none :
    (json : JsonText) (bytes : GoString) (run : Option GoError) (detail : GoString)
    → answered json bytes run ≡ (detail, none)
    → (run ≡ none) × (described (decode_version_output json bytes) ≡ (detail, none))
unfolding answered
answered-none json bytes (some e) detail h = cc (ap (λ (o : Diagnosis). o.1) h)
answered-none json bytes none detail h = (refl, h)

ran-none :
    (json : JsonText) (command : Command) (b : LimitedBuffer) (detail : GoString)
    → ran json command b ≡ (detail, none)
    → (b.too_large ≡ false) × (answered json b.bytes command.run ≡ (detail, none))
unfolding ran
ran-none json command b detail h = elim (Bool-cases b.too_large) [
  | inl e ↦ cc (ap (λ (o : Diagnosis). o.1) (rw e at h))
  | inr e ↦ (e, rw e at h)
]

-- Output that is not marked as too large is whole.
whole :
    (ps : List GoString)
    → All (λ p. p ≢ []) ps
    → (copy_output ps empty_buffer).too_large ≡ false
    → (length (concat ps) ≤ max_version_output_size)
      × ((copy_output ps empty_buffer).bytes ≡ concat ps)
whole ps full h =
    let (bytes, too_large) = copy_output-take ps full in
    let short : length (concat ps) ≤ max_version_output_size = ground (arith, sym too_large ∙ h) in
    (short, bytes ∙ take_all max_version_output_size (concat ps) short)

fits :
    (ps : List GoString)
    → All (λ p. p ≢ []) ps
    → length (concat ps) ≤ max_version_output_size
    → (copy_output ps empty_buffer).too_large ≡ false
fits ps full short = (copy_output-take ps full).1 ∙ ground arith

started-none :
    (json : JsonText) (command : Command) (detail : GoString) (r : Result GoString)
    → All (λ p. p ≢ []) command.output
    → command.look_path ≡ r
    → started json command r ≡ (detail, none)
    → (version : GoString) × Reports json command version × (passing version ≡ (detail, none))
unfolding started
started-none json command detail (err e) full found h = cc (ap (λ (o : Diagnosis). o.1) h)
started-none json command detail (ok path) full found h =
    let (open_ended, h1) =
      ran-none json command (copy_output command.output empty_buffer) detail h in
    let (short, same) = whole command.output full open_ended in
    let (finished, h2) = answered-none json _ command.run detail h1 in
    let (version, decoded, good, detail_same) = described-none _ detail h2 in
    (
      version,
      record {
        found = (path, found);
        finished = finished;
        bounded = short;
        decoded = ap (decode_version_output json) (sym same) ∙ decoded;
        good_version = good;
      },
      detail_same,
    )

Reports-probe :
    (json : JsonText) (command : Command) (version : GoString)
    → All (λ p. p ≢ []) command.output
    → Reports json command version
    → probe json command ≡ passing version
unfolding probe started ran answered described
Reports-probe json command version full r =
    let b = copy_output command.output empty_buffer in
    let fit = fits command.output full r.bounded in
    let same = (whole command.output full fit).1 in
    rw r.found.1 (
      rw fit
        (rw r.finished (rw same (rw r.decoded (rw (eq_refl (codes "linux")) (rw r.good_version))))))

-- The diagnosis passes exactly when the command was found and ran, wrote at most 64 KiB, and all of
-- that decodes to a version of 1 to 64 characters of the pattern and the system linux; the detail
-- then names that version. The command's output comes in parts that are not empty.
pub probe-passes_iff :
    (json : JsonText) (command : Command) (detail : GoString)
    → All (λ p. p ≢ []) command.output
    → (probe json command ≡ (detail, none))
      ↔ ((version : GoString) × Reports json command version × (passing version ≡ (detail, none)))
unfolding probe
probe-passes_iff json command detail full = (
  λ h. started-none json command detail command.look_path full refl h,
  λ (version, r, same). Reports-probe json command version full r ∙ same,
)
