-- ===== src/Github/Request.antt =====
-- `request`, `endpoint` and `mapError` of internal/connector/github/repository.go.
use delegatd.Prelude.{
  ℕ, ◌&&◌, ◌||◌, not, List, [], ◌∷◌, ◌++◌, GoString, codes, is_empty, take, Option, none, some,
  Result, ok, err, GoError, ErrorType, failure, store, repository, validation, diagnostic, plain,
  sentinel, response_too_large, typed, wrapped, if◌then◌else◌, length, ltb, eqb, ◌>>=◌, ◌>>◌,
}
use delegatd.Memory.{guard}
use delegatd.Github.{repository_error, unavailable}

abbrev pub max_api_response_size : ℕ
max_api_response_size = 1048576

-- The parts of `url.URL` that are read and set.
pub record Url : Type 0 where
  pub scheme : GoString
  pub host : GoString
  pub path : GoString
  pub raw_path : GoString
  pub raw_query : GoString
  pub fragment : GoString

abbrev pub Query : Type 0
Query = List (GoString × GoString)

-- package url
pub record UrlPackage : Type 0 where
  pub parse : GoString → Result Url
  pub encode : Query → GoString
  pub string : Url → GoString
  pub path_escape : GoString → GoString

pub data Method : Type 0 where
  get post : Method

-- An HTTP request as `request` makes it.
pub record HttpRequest : Type 0 where
  pub method : Method
  pub url : GoString
  pub accept : GoString
  pub authorization : Option GoString
  pub content_type : Option GoString
  pub body : GoString

-- What `Do` returns: an error, or the status, the body and the errors of reading and closing it.
pub data HttpAnswer : Type 0 where
  failed : GoError → HttpAnswer
  responded : ℕ → GoString → Option GoError → Option GoError → HttpAnswer

-- The five requests of `Snapshot`.
pub data Call : Type 0 where
  to_installation to_token to_repository to_commits to_contents : Call

-- The transport, which follows no redirect, and the errors of the two contexts after a call that
-- failed. `failed` is an error of making the request, too.
pub record Transport : Type 0 where
  pub base_url : GoString
  pub send : HttpRequest → HttpAnswer
  pub parent : Call → Option GoError
  pub child : Call → Option GoError

-- `apiResponse`
pub record ApiResponse : Type 0 where
  pub status : ℕ
  pub body : GoString

-- `strings.TrimRight(path, "/")`
abbrev pub trim_slashes : GoString → GoString
trim_slashes [] = []
trim_slashes (b ∷ s) =
    let rest = trim_slashes s in if eqb b b'/' && is_empty rest then [] else b ∷ rest

abbrev pub based : UrlPackage → GoString → Query → Url → Result GoString
based urls path query base =
    if is_empty base.scheme || is_empty base.host
    then err (plain (codes "invalid GitHub API base URL"))
    else ok (
        urls.string (record base {
          path = trim_slashes base.path ++ path;
          raw_path = [];
          raw_query = urls.encode query;
          fragment = [];
        }))

abbrev pub parsed_base : Result Url → Result Url
parsed_base (ok base) = ok base
parsed_base (err e) = err (plain (codes "invalid GitHub API base URL"))

unfoldable pub endpoint : UrlPackage → GoString → GoString → Query → Result GoString
endpoint urls base_url path query = do
  base ← parsed_base (urls.parse base_url)
  based urls path query base

abbrev pub or_unavailable {ℓ} : {A : Type ℓ} → Result A → Result A
or_unavailable (ok a) = ok a
or_unavailable (err e) = err (repository_error unavailable e)

abbrev pub unless_failed : Option GoError → Result (Unit {0})
unless_failed none = ok tt
unless_failed (some e) = err (repository_error unavailable e)

unfoldable pub read_response : HttpAnswer → Result ApiResponse
read_response (failed e) = err (repository_error unavailable e)
read_response (responded status body read close) = do
  unless_failed read
  unless_failed close
  guard (not (ltb max_api_response_size (length (take 1048577 body))))
      (repository_error unavailable (sentinel response_too_large))
  ok (record { status = status; body = take 1048577 body })

abbrev pub authorized : GoString → Option GoString
authorized credential = if is_empty credential then none else some (codes "Bearer " ++ credential)

-- `mapError`: the error of a `repositoryError`, or one around it
abbrev pub kept : ErrorType → GoError → GoError → GoError
kept repository whole below = whole
kept failure whole below = below
kept store whole below = below
kept validation whole below = below
kept diagnostic whole below = below

-- the first `repositoryError` of the chain, or the default
unfoldable pub source_error : GoError → GoError → GoError
source_error default_error (plain text) = default_error
source_error default_error (sentinel s) = default_error
source_error default_error (typed t reason) = kept t (typed t reason) default_error
source_error default_error (wrapped t reason cause) =
    kept t (wrapped t reason cause) (source_error default_error cause)

unfoldable pub map_error : Option GoError → Option GoError → GoError → GoError
map_error (some e) child cause = repository_error (codes "task cancelled") e
map_error none (some e) cause = repository_error unavailable e
map_error none none cause = source_error (repository_error unavailable cause) cause

-- the headers of a body that is not nil
abbrev pub typed_body : Option GoString → Option GoString
typed_body none = none
typed_body (some body) = some (codes "application/json")

abbrev pub body_bytes : Option GoString → GoString
body_bytes none = []
body_bytes (some body) = body

-- `mapError` around a failed call
abbrev pub mapped : Transport → Call → Result ApiResponse → Result ApiResponse
mapped transport call (ok response) = ok response
mapped transport call (err e) = err (map_error (transport.parent call) (transport.child call) e)

module _ (urls : UrlPackage) (transport : Transport) where
  -- `request`
  unfoldable pub request :
      Method → GoString → Query → GoString → GoString → Option GoString → Result ApiResponse
  request method path query credential accept body = do
    url ← or_unavailable (endpoint urls transport.base_url path query)
    read_response (
        transport.send (record {
          method = method;
          url = url;
          accept = accept;
          authorization = authorized credential;
          content_type = typed_body body;
          body = body_bytes body;
        }))
