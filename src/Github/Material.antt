-- ===== src/Github/Material.antt =====
-- What `Snapshot` returns of a repository.
use delegatd.Prelude.{
  ◌≡◌, ◌≢◌, true, List, [], ◌∷◌, GoString, some, ℤ, is_positive, int_ltb, ok, ◌⊎◌,
}
use delegatd.Domain.Time.{Time}
use delegatd.Domain.Task.{RepositoryMaterial, RepositoryConfiguration}
use delegatd.Config.Repository.{decode_repository}
use delegatd.Config.Commands.{IsNormalRepository}
use delegatd.Github.{is_commit, to_lower}
use delegatd.Github.Request.{ApiResponse}
use delegatd.Github.Snapshot.{
  InstallationToken, RepositoryIdentity, Packages, RepositorySource, empty_configuration,
  token_response, repository_response, commits_response, configuration_response,
}
use delegatd.Github.Scope.{ReadsOnly}

-- Whose repository an answer names.
abbrev pub Names : RepositoryIdentity → ℤ → GoString → GoString → Type 0
Names answer id full_name branch =
    (answer.id ≡ some id)
    × (answer.full_name ≡ some full_name)
    × (answer.default_branch ≡ some branch)

module _ (packages : Packages) (source : RepositorySource) where
  -- GitHub gave out the token, for an installation: it is not empty, it lasts, and it has the
  -- permissions to read contents and metadata and no other permission.
  pub record IsIssued (token : GoString) : Type 0 where
    pub jwt : GoString
    pub installation : ℤ
    pub body : GoString
    pub response : ApiResponse
    pub answer : InstallationToken
    pub expires : Time
    pub asked : token_response packages source jwt installation body ≡ ok response
    pub given : packages.answers.token response.body ≡ ok answer
    pub same : answer.token ≡ token
    pub there : token ≢ []
    pub until : packages.parse_time answer.expires_at ≡ ok expires
    pub lasts : int_ltb source.now.instant expires.instant ≡ true
    pub permissions : ReadsOnly answer.permissions

  -- With the token, GitHub answered whose repository it is: the configured name up to case, a
  -- positive id, and the default branch.
  pub record IsNamed (token full_name identity branch : GoString) : Type 0 where
    pub response : ApiResponse
    pub answer : RepositoryIdentity
    pub id : ℤ
    pub asked : repository_response packages source token ≡ ok response
    pub given : packages.answers.repository response.body ≡ ok answer
    pub names : Names answer id full_name branch
    pub positive : is_positive id ≡ true
    pub text : identity ≡ packages.decimal id
    pub own_name : packages.equal_fold full_name source.resource.external_ref ≡ true

  -- With the token, GitHub answered the commits of the branch; the revision is the id of the first,
  -- in lower case.
  pub record IsHead (token branch revision : GoString) : Type 0 where
    pub response : ApiResponse
    pub sha : GoString
    pub rest : List GoString
    pub asked : commits_response packages source token branch ≡ ok response
    pub given : packages.answers.commits response.body ≡ ok (sha ∷ rest)
    pub is_id : is_commit sha ≡ true
    pub lower : revision ≡ to_lower sha

  -- The configuration in an answer: empty where there is none, or made normal by `DecodeRepository`
  -- from the body of the answer.
  abbrev pub IsIn : ApiResponse → RepositoryConfiguration → Type 0
  IsIn response c =
      ((response.status ≡ 404) × (c ≡ empty_configuration))
      ⊎ ((response.status ≡ 200)
          × (decode_repository packages.durations packages.yaml response.body ≡ ok c)
          × IsNormalRepository packages.durations c)

  -- What was read of the repository, all with one token that GitHub gave out: whose it is, the head
  -- of its default branch, and its configuration at that commit.
  pub record IsMaterial (m : RepositoryMaterial) : Type 0 where
    pub token : GoString
    pub branch : GoString
    pub response : ApiResponse
    pub issued : IsIssued token
    pub named : IsNamed token m.external_ref m.external_identity branch
    pub head : IsHead token branch m.revision
    pub asked : configuration_response packages source token m.revision ≡ ok response
    pub configuration : IsIn response m.configuration
