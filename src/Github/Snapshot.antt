-- ===== src/Github/Snapshot.antt =====
-- `newRepositorySource` and `Snapshot` of internal/connector/github/repository.go.
use delegatd.Prelude.{
  Bool, true, false, ◌&&◌, not, List, [], ◌∷◌, ◌++◌, GoString, codes, ◌==◌, is_empty, GoMap, lookup,
  Option, none, some, ℤ, pos, is_positive, int_ltb, Result, ok, err, GoError, plain, sentinel,
  response_too_large, typed, wrapped, if◌then◌else◌, length, eqb, ◌>>=◌, ◌>>◌,
}
use delegatd.Memory.{guard}
use delegatd.Domain.Time.{Time}
use delegatd.Domain.Json.{Codec, text, array, object, field, end, texts}
use delegatd.Domain.Task.{RepositoryMaterial, RepositoryConfiguration}
use delegatd.Config.Repository.{Durations, RepositoryYaml, decode_repository}
use delegatd.Github.{
  AppConfig, RepositoryConfig, repository_error, refusal, unavailable, is_commit, to_lower,
  parse_external_ref, KeyRead, loaded, refused, KeyPlatform, load_private_key,
}
use delegatd.Github.Request.{
  UrlPackage, Transport, Query, to_installation, to_token, to_repository, to_commits, to_contents,
  Method, get, post, ApiResponse, request, mapped, or_unavailable,
}

-- The fields that `json.Unmarshal` fills in the answers.
pub record InstallationToken : Type 0 where
  pub token : GoString
  pub expires_at : GoString
  pub permissions : GoMap GoString

pub record RepositoryIdentity : Type 0 where
  pub id : Option ℤ
  pub full_name : Option GoString
  pub default_branch : Option GoString

pub record Answers : Type 0 where
  pub installation : GoString → Result (Option ℤ)
  pub token : GoString → Result InstallationToken
  pub repository : GoString → Result RepositoryIdentity
  pub commits : GoString → Result (List GoString)

-- The packages that `Snapshot` uses: the key platform, `appJWT`, url, `json.Marshal`,
-- `strconv.FormatInt`, `time.Parse` and `strings.EqualFold`.
pub record Packages : Type 1 where
  pub keys : KeyPlatform
  pub sign : keys.Key → ℤ → Time → Result GoString
  pub urls : UrlPackage
  pub codec : Codec
  pub decimal : ℤ → GoString
  pub parse_time : GoString → Result Time
  pub equal_fold : GoString → GoString → Bool
  pub answers : Answers
  pub durations : Durations
  pub yaml : RepositoryYaml

-- `RepositorySource`, with its clock and its transport
pub record RepositorySource : Type 0 where
  pub app : AppConfig
  pub resource : RepositoryConfig
  pub owner : GoString
  pub repo : GoString
  pub now : Time
  pub transport : Transport

-- `newRepositorySource`
unfoldable pub new_repository_source :
    AppConfig → RepositoryConfig → Time → Transport → Result RepositorySource
new_repository_source app resource now transport = do
  parts ← parse_external_ref resource.external_ref
  ok (record {
    app = app;
    resource = resource;
    owner = parts.0;
    repo = parts.1;
    now = now;
    transport = transport;
  })

-- `newRepositoryError(reason, nil)` where a test fails
abbrev pub check : Bool → Result (Unit {0})
check b = guard b (refusal unavailable)

abbrev pub json_accept : GoString
json_accept = codes "application/vnd.github+json"

abbrev pub empty_configuration : RepositoryConfiguration
empty_configuration = record {
  version = pos 1;
  instructions = [];
  policy = record { actions = []; protected_paths = [] };
  required = [];
}

abbrev pub positive_id : Option ℤ → Result ℤ
positive_id none = err (refusal unavailable)
positive_id (some n) = if is_positive n then ok n else err (refusal unavailable)

-- the permission that a token has, and the zero value for none
abbrev pub permission : GoMap GoString → GoString → GoString
permission permissions name = elim (lookup name permissions) [ none ↦ [] | some value ↦ value ]

abbrev pub earlier : Time → Time → Bool
earlier t u = int_ltb t.instant u.instant

-- The token is there, lasts, and has just the two permissions that were asked for.
abbrev pub is_scoped : Time → InstallationToken → Time → Bool
is_scoped now t expires =
    not (is_empty t.token)
    && earlier now expires
    && eqb (length t.permissions) 2
    && permission t.permissions (codes "contents") == codes "read"
    && permission t.permissions (codes "metadata") == codes "read"

-- a text that is there and is not empty
abbrev pub present : Option GoString → Result GoString
present none = err (refusal unavailable)
present (some s) = ok s

abbrev pub first_commit : List GoString → Result GoString
first_commit [] = err (refusal unavailable)
first_commit (sha ∷ shas) = if is_commit sha then ok (to_lower sha) else err (refusal unavailable)

-- `errors.Is(err, errResponseTooLarge)`
unfoldable pub is_too_large : GoError → Bool
is_too_large (plain s) = false
is_too_large (sentinel response_too_large) = true
is_too_large (sentinel s) = false
is_too_large (typed t reason) = false
is_too_large (wrapped t reason cause) = is_too_large cause

abbrev pub bad_configuration : GoString
bad_configuration = codes "repository configuration is invalid"

-- the error of reading the configuration: too large, or as of any request
abbrev pub configuration_sent : Transport → Result ApiResponse → Result ApiResponse
configuration_sent transport (ok response) = ok response
configuration_sent transport (err e) =
    if is_too_large e
    then err (repository_error bad_configuration e)
    else mapped transport to_contents (err e)

abbrev pub decoded : Result RepositoryConfiguration → Result RepositoryConfiguration
decoded (ok c) = ok c
decoded (err e) = err (repository_error bad_configuration e)

module _ (packages : Packages) (source : RepositorySource) where
  -- `repositoryPath`
  abbrev pub repository_path : GoString
  repository_path =
      codes "/repos/"
      ++ packages.urls.path_escape source.owner
      ++ codes "/"
      ++ packages.urls.path_escape source.repo

  abbrev pub fetch :
      Method → GoString → Query → GoString → GoString → Option GoString → Result ApiResponse
  fetch = request packages.urls source.transport

  abbrev pub signed : KeyRead packages.keys.Key → Result GoString
  signed (refused reason none) = err (refusal reason)
  signed (refused reason (some e)) = err (repository_error reason e)
  signed (loaded key) = elim (packages.sign key source.app.app_id source.now) [
    | ok jwt ↦ ok jwt
    | err e ↦ err (repository_error (codes "private key is invalid") e)
  ]

  unfoldable pub installation_response : GoString → Result ApiResponse
  installation_response jwt =
      mapped source.transport to_installation
        (fetch get (repository_path ++ codes "/installation") [] jwt json_accept none)

  unfoldable pub installation_of : GoString → Result ℤ
  installation_of jwt = do
    response ← installation_response jwt
    guard (not (eqb response.status 404)) (refusal (codes "repository is not installed"))
    check (eqb response.status 200)
    id ← or_unavailable (packages.answers.installation response.body)
    positive_id id

  abbrev pub token_request : Result GoString
  token_request = packages.codec.marshal (
      object (
        field (codes "repositories") (array (texts (source.repo ∷ []))) (
          field (codes "permissions")
            (object (
              field (codes "contents") (text (codes "read"))
                (field (codes "metadata") (text (codes "read")) end)))
            end)))

  unfoldable pub token_response : GoString → ℤ → GoString → Result ApiResponse
  token_response jwt id body = mapped source.transport to_token (
      fetch post (codes "/app/installations/" ++ packages.decimal id ++ codes "/access_tokens") []
        jwt json_accept (some body))

  unfoldable pub token_of : GoString → ℤ → Result GoString
  token_of jwt id = do
    body ← or_unavailable token_request
    response ← token_response jwt id body
    check (eqb response.status 201)
    answer ← or_unavailable (packages.answers.token response.body)
    expires ← or_unavailable (packages.parse_time answer.expires_at)
    guard (is_scoped source.now answer expires) (
        repository_error unavailable
          (plain (codes "installation token was empty, expired, or over-scoped")))
    ok answer.token

  unfoldable pub repository_response : GoString → Result ApiResponse
  repository_response token =
      mapped source.transport to_repository (fetch get repository_path [] token json_accept none)

  -- the id, the full name and the default branch
  unfoldable pub identity_of : GoString → Result (ℤ × GoString × GoString)
  identity_of token = do
    response ← repository_response token
    check (eqb response.status 200)
    answer ← or_unavailable (packages.answers.repository response.body)
    id ← positive_id answer.id
    full_name ← present answer.full_name
    branch ← present answer.default_branch
    check (not (is_empty branch))
    check (packages.equal_fold full_name source.resource.external_ref)
    ok (id, full_name, branch)

  unfoldable pub commits_response : GoString → GoString → Result ApiResponse
  commits_response token branch = mapped source.transport to_commits (
      fetch get (repository_path ++ codes "/commits")
        ((codes "sha", branch) ∷ (codes "per_page", codes "1") ∷ []) token json_accept none)

  unfoldable pub commit_of : GoString → GoString → Result GoString
  commit_of token branch = do
    response ← commits_response token branch
    check (eqb response.status 200)
    shas ← or_unavailable (packages.answers.commits response.body)
    first_commit shas

  unfoldable pub configuration_response : GoString → GoString → Result ApiResponse
  configuration_response token sha = configuration_sent source.transport (
      fetch get (repository_path ++ codes "/contents/.delegatd.yaml") ((codes "ref", sha) ∷ [])
        token (codes "application/vnd.github.raw+json") none)

  unfoldable pub configuration_in : ApiResponse → Result RepositoryConfiguration
  configuration_in response =
      if eqb response.status 404
      then ok empty_configuration
      else if not (eqb response.status 200)
      then err (refusal unavailable)
      else decoded (decode_repository packages.durations packages.yaml response.body)

  unfoldable pub configuration_of : GoString → GoString → Result RepositoryConfiguration
  configuration_of token sha = do
    response ← configuration_response token sha
    configuration_in response

  abbrev pub unless_cancelled : Option GoError → Result (Unit {0})
  unless_cancelled none = ok tt
  unless_cancelled (some e) = err (repository_error (codes "task cancelled") e)

  -- `Snapshot`; the argument is the error of the context at entry.
  unfoldable pub snapshot : Option GoError → Result RepositoryMaterial
  snapshot ctx = do
    unless_cancelled ctx
    jwt ← signed (load_private_key packages.keys source.app)
    installation ← installation_of jwt
    token ← token_of jwt installation
    identity ← identity_of token
    sha ← commit_of token identity.2
    configuration ← configuration_of token sha
    ok (record {
      external_ref = identity.1;
      external_identity = packages.decimal identity.0;
      revision = sha;
      configuration = configuration;
    })
