-- ===== src/Config/Commands.antt =====
-- What holds of a repository configuration that `DecodeRepository` accepts.
use delegatd.Prelude.{
  ◌≡◌, ◌≢◌, refl, ap, sym, subst, inl, inr, Bool, true, false, not, List, [], ◌∷◌, arith, GoString,
  is_empty, All, In, Distinct, StringSet, insert, contains, lookup-insert, lookup-insert_self,
  is_some, ℤ, pos, int_eqb, int_eq_of_eqb, eq_iff, ok, GoError, ok_injective, >>=-eq-ok, trim_space,
  ltb, length,
}
use delegatd.Domain.Task.{PolicyRequest, ValidationCommand, RepositoryConfiguration}
use delegatd.Memory.{guard}
use delegatd.Memory.Snapshots.{guard-true}
use delegatd.Policy.Paths.{normalize_instruction_path}
use delegatd.Policy.Paths.Normal.{normalize_instruction_path_twice}
use delegatd.Policy.Request.{normalize_request}
use delegatd.Config.Yaml.{decode, decode_single_document}
use delegatd.Config.Checks.{is_instance_name}
use delegatd.Config.Load.{max_configuration_size}
use delegatd.Config.Repository.{
  Durations, RepositoryYaml, normalize_instructions, normalize_commands, positive_duration,
  normalize_repository, decode_repository,
}

-- What a larger set lacks is not the new key, and the set lacks it too.
insert-lacks :
    (a b : GoString) (seen : StringSet)
    → contains a (insert b tt seen) ≡ false
    → (a ≢ b) × (contains a seen ≡ false)
insert-lacks a b seen h = (
  λ e. cc (e, h, ap is_some (lookup-insert_self b tt seen)),
  ground (arith, lookup-insert b a tt seen, eq_iff b a),
)

-- The texts are distinct, and none of them is in the set.
record Fresh (seen : StringSet) (texts : List GoString) : Type 0 where
  distinct : Distinct texts
  unseen : (a : GoString) → In a texts → contains a seen ≡ false

[]-Fresh : (seen : StringSet) → Fresh seen []
[]-Fresh seen = record { distinct = tt; unseen = λ a i. elim i [ ] }

cons-Fresh :
    (a : GoString) (seen : StringSet) (texts : List GoString)
    → contains a seen ≡ false
    → Fresh (insert a tt seen) texts
    → Fresh seen (a ∷ texts)
cons-Fresh a seen texts new rest = record {
  distinct = (λ i. (insert-lacks a a seen (rest.unseen a i)).0 refl, rest.distinct);
  unseen = λ b i. elim i [
    | inl e ↦ subst (λ x. contains x seen ≡ false) (sym e) new
    | inr later ↦ (insert-lacks b a seen (rest.unseen b later)).1
  ];
}

guard-not : (b : Bool) (e : GoError) {u : Unit {0}} → guard (not b) e ≡ ok u → b ≡ false
guard-not true e h = cc
guard-not false e h = refl

normalize_instructions-Fresh :
    (raws : List GoString) (seen : StringSet) (paths : List GoString)
    → normalize_instructions raws seen ≡ ok paths
    → Fresh seen paths × All (λ p. normalize_instruction_path p ≡ ok p) paths
unfolding normalize_instructions
normalize_instructions-Fresh [] seen paths h =
    subst (λ ps. Fresh seen ps × All (λ p. normalize_instruction_path p ≡ ok p) ps) (ok_injective h)
      ([]-Fresh seen, tt)
normalize_instructions-Fresh (raw ∷ raws) seen paths h =
    let (p, h1, k1) = >>=-eq-ok (normalize_instruction_path raw) _ h in
    let (u, h2, k2) = >>=-eq-ok (guard (not (contains p seen)) _) _ k1 in
    let (ps, h3, k3) = >>=-eq-ok (normalize_instructions raws (insert p tt seen)) _ k2 in
    let (fresh, good) = normalize_instructions-Fresh raws (insert p tt seen) ps h3 in
    subst (λ qs. Fresh seen qs × All (λ q. normalize_instruction_path q ≡ ok q) qs)
      (ok_injective k3)
      (
        cons-Fresh p seen ps (guard-not (contains p seen) _ h2) fresh,
        (normalize_instruction_path_twice raw p h1, good),
      )

abbrev pub names_of : List ValidationCommand → List GoString
names_of [] = []
names_of (c ∷ cs) = c.name ∷ names_of cs

-- A command with a good name, something to run, and the text of a positive duration.
abbrev pub IsCommand : Durations → ValidationCommand → Type 0
IsCommand durations c =
    (is_instance_name c.name ≡ true)
    × (is_empty (trim_space c.run) ≡ false)
    × ((raw : GoString) × (d : ℤ) × (positive_duration (durations.parse raw) ≡ ok d)
        × (c.timeout ≡ durations.print d))

normalize_commands-Fresh :
    (durations : Durations) (raws : List ValidationCommand) (seen : StringSet)
    (cs : List ValidationCommand)
    → normalize_commands durations raws seen ≡ ok cs
    → Fresh seen (names_of cs) × All (IsCommand durations) cs
unfolding normalize_commands
normalize_commands-Fresh durations [] seen cs h =
    subst (λ xs. Fresh seen (names_of xs) × All (IsCommand durations) xs) (ok_injective h)
      ([]-Fresh seen, tt)
normalize_commands-Fresh durations (raw ∷ raws) seen cs h =
    let name = trim_space raw.name in
    let (u1, h1, k1) = >>=-eq-ok (guard (is_instance_name name) _) _ h in
    let (u2, h2, k2) = >>=-eq-ok (guard (not (contains name seen)) _) _ k1 in
    let (u3, h3, k3) = >>=-eq-ok (guard (not (is_empty (trim_space raw.run))) _) _ k2 in
    let (u4, h4, k4) = >>=-eq-ok (guard (not (is_empty raw.timeout)) _) _ k3 in
    let (d, h5, k5) = >>=-eq-ok (positive_duration (durations.parse raw.timeout)) _ k4 in
    let (rest, h6, k6) = >>=-eq-ok (normalize_commands durations raws (insert name tt seen)) _ k5 in
    let (fresh, good) = normalize_commands-Fresh durations raws (insert name tt seen) rest h6 in
    subst (λ xs. Fresh seen (names_of xs) × All (IsCommand durations) xs) (ok_injective k6)
      (
        cons-Fresh name seen (names_of rest) (guard-not (contains name seen) _ h2) fresh,
        (
          (
            guard-true (is_instance_name name) _ h1,
            guard-not (is_empty (trim_space raw.run)) _ h3,
            (raw.timeout, d, h5, refl),
          ),
          good,
        ),
      )

pub record IsNormalRepository (durations : Durations) (c : RepositoryConfiguration) : Type 0 where
  pub version_one : c.version ≡ pos 1
  pub paths_distinct : Distinct c.instructions
  pub paths_normal : All (λ p. normalize_instruction_path p ≡ ok p) c.instructions
  pub normal_policy : (raw : PolicyRequest) × (normalize_request raw ≡ ok c.policy)
  pub names_distinct : Distinct (names_of c.required)
  pub good_commands : All (IsCommand durations) c.required

normalize_repository-IsNormalRepository :
    (durations : Durations) (raw c : RepositoryConfiguration)
    → normalize_repository durations raw ≡ ok c
    → IsNormalRepository durations c
unfolding normalize_repository
normalize_repository-IsNormalRepository durations raw c h =
    let (u1, h1, k1) = >>=-eq-ok (guard (int_eqb raw.version (pos 1)) _) _ h in
    let (paths, h2, k2) = >>=-eq-ok (normalize_instructions raw.instructions []) _ k1 in
    let (policy, h3, k3) = >>=-eq-ok (normalize_request raw.policy) _ k2 in
    let (commands, h4, k4) = >>=-eq-ok (normalize_commands durations raw.required []) _ k3 in
    let (fresh, good) = normalize_instructions-Fresh raw.instructions [] paths h2 in
    let (named, runs) = normalize_commands-Fresh durations raw.required [] commands h4 in
    subst (IsNormalRepository durations) (ok_injective k4) (record {
      version_one =
          int_eq_of_eqb raw.version (pos 1) (guard-true (int_eqb raw.version (pos 1)) _ h1);
      paths_distinct = fresh.distinct;
      paths_normal = good;
      normal_policy = (raw.policy, h3);
      names_distinct = named.distinct;
      good_commands = runs;
    })

-- A repository configuration that `DecodeRepository` returns has version 1, distinct instruction
-- paths in normal form, a policy that `NormalizeRequest` made, and validation commands with
-- distinct good names, each with something to run and the text of a positive duration.
pub decode_repository-IsNormalRepository :
    (durations : Durations) (yaml : RepositoryYaml) (input : GoString) (c : RepositoryConfiguration)
    → decode_repository durations yaml input ≡ ok c
    → IsNormalRepository durations c
unfolding decode_repository
decode_repository-IsNormalRepository durations yaml input c h =
    let (u1, h1, k1) = >>=-eq-ok (guard (not (ltb max_configuration_size (length input))) _) _ h in
    let (root, h2, k2) = >>=-eq-ok (decode_single_document true (yaml.document input)) _ k1 in
    let (raw, h3, k3) = >>=-eq-ok (decode yaml.marshal yaml.as_repository root) _ k2 in
    normalize_repository-IsNormalRepository durations raw c k3
