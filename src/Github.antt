-- ===== src/Github.antt =====
-- internal/connector/github: the repository source of the GitHub connector. The clock, the key file,
-- cryptography, package url and the transport are arguments.
pub mod Request
pub mod Snapshot
pub mod Scope
pub mod Reference
pub mod Material
use delegatd.Prelude.{
  ◌≡◌, refl, ℕ, ◌%◌, Bool, true, false, ◌&&◌, ◌||◌, not, List, [], ◌∷◌, ◌++◌, GoString, codes, ◌==◌,
  is_empty, trim_space, has_suffix, lower_byte, in_range, split, Option, none, some, ℤ, is_positive,
  Result, ok, err, GoError, repository, plain, typed, wrapped, if◌then◌else◌, length, leb, ltb, eqb,
  all,
}
use delegatd.Domain.Time.{Time}

-- `Config` and `RepositoryConfig`
pub record AppConfig : Type 0 where
  pub app_id : ℤ
  pub private_key_file : GoString

pub record RepositoryConfig : Type 0 where
  pub external_ref : GoString

-- `newRepositoryError`, of a cause and of nil
abbrev pub repository_error : GoString → GoError → GoError
repository_error reason cause = wrapped repository reason cause

abbrev pub refusal : GoString → GoError
refusal reason = typed repository reason

abbrev pub unavailable : GoString
unavailable = codes "repository is unavailable"

abbrev pub is_alnum : ℕ → Bool
is_alnum b = in_range b'A' b'Z' b || in_range b'a' b'z' b || in_range b'0' b'9' b

abbrev pub ends_alnum : GoString → Bool
ends_alnum [] = false
ends_alnum (b ∷ []) = is_alnum b
ends_alnum (b ∷ c ∷ s) = ends_alnum (c ∷ s)

-- `githubOwnerPattern`
abbrev pub is_owner : GoString → Bool
is_owner [] = false
is_owner (b ∷ s) =
    is_alnum b
    && (is_empty s || (leb (length s) 38 && all (λ c. is_alnum c || eqb c b'-') s && ends_alnum s))

-- `githubRepositoryPattern`
abbrev pub is_repository_name : GoString → Bool
is_repository_name s =
    leb 1 (length s)
    && leb (length s) 100
    && all (λ c. is_alnum c || eqb c b'_' || eqb c b'.' || eqb c b'-') s

abbrev pub is_hex : ℕ → Bool
is_hex b = in_range b'0' b'9' b || in_range b'a' b'f' b || in_range b'A' b'F' b

-- `commitPattern`
abbrev pub is_commit : GoString → Bool
is_commit s = (eqb (length s) 40 || eqb (length s) 64) && all is_hex s

-- `strings.ToLower` of an ASCII text
abbrev pub to_lower : GoString → GoString
to_lower [] = []
to_lower (b ∷ s) = lower_byte b ∷ to_lower s

abbrev pub good_parts : GoString → GoString → Bool
good_parts owner repo =
    is_owner owner
    && is_repository_name repo
    && not (repo == codes ".")
    && not (repo == codes "..")
    && not (has_suffix (to_lower repo) (codes ".git"))

-- the parts between the slashes
unfoldable pub two_parts : List GoString → Result (GoString × GoString)
two_parts [] = err (plain (codes "invalid external_ref"))
two_parts (owner ∷ []) = err (plain (codes "invalid external_ref"))
two_parts (owner ∷ repo ∷ []) =
    if good_parts owner repo then ok (owner, repo) else err (plain (codes "invalid external_ref"))
two_parts (owner ∷ repo ∷ more ∷ rest) = err (plain (codes "invalid external_ref"))

unfoldable pub parse_external_ref : GoString → Result (GoString × GoString)
parse_external_ref value =
    if not (value == trim_space value)
    then err (plain (codes "invalid external_ref"))
    else two_parts (split b'/' value)

abbrev pub max_private_key_size : ℕ
max_private_key_size = 65536

-- What the operating system answers about the key file: `Stat`, with whether it is a regular file,
-- its size and its permission bits, and `ReadFile`.
pub record KeyFile : Type 0 where
  pub stat : Result (Bool × ℕ × ℕ)
  pub content : Result GoString

-- `loadPrivateKey`: the key, or the reason and the cause
pub data KeyRead (Key : Type 0) : Type 0 where
  loaded : Key → KeyRead Key
  refused : GoString → Option GoError → KeyRead Key

-- The platform: whether it is Windows, the key file of a path, and `parseRSAKey`.
pub record KeyPlatform : Type 1 where
  pub Key : Type 0
  pub windows : Bool
  pub key_file : GoString → KeyFile
  pub parse_rsa_key : GoString → Result Key

module _ (platform : KeyPlatform) where
  abbrev pub parsed : Result platform.Key → KeyRead platform.Key
  parsed (err e) = refused (codes "private key is invalid") (some e)
  parsed (ok key) = loaded key

  abbrev pub read_key : Result GoString → KeyRead platform.Key
  read_key (err e) = refused (codes "private key file is unreadable") (some e)
  read_key (ok content) =
      if ltb max_private_key_size (length content)
      then refused (codes "private key file is unreadable") none
      else parsed (platform.parse_rsa_key content)

  abbrev pub usable_key : KeyFile → Result (Bool × ℕ × ℕ) → KeyRead platform.Key
  usable_key file (err e) = refused (codes "private key file is unreadable") (some e)
  usable_key file (ok (regular, size, permissions)) =
      if not regular || ltb max_private_key_size size
      then refused (codes "private key file is unreadable")
          (some (plain (codes "private key file is not a usable regular file")))
      else if not platform.windows && not (eqb (permissions % 64) 0)
      then refused (codes "private key file permissions are too broad") none
      else read_key file.content

  -- `loadPrivateKey`
  unfoldable pub load_private_key : AppConfig → KeyRead platform.Key
  load_private_key app =
      if not (is_positive app.app_id)
      then refused (codes "app_id must be positive") none
      else if is_empty app.private_key_file
      then refused (codes "private_key_file is required") none
      else usable_key (platform.key_file app.private_key_file)
          (platform.key_file app.private_key_file).stat
