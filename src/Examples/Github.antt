-- ===== src/Examples/Github.antt =====
-- A repository that the connector reads.
use delegatd.Prelude.{
  ◌≡◌, refl, ℕ, true, false, [], ◌∷◌, GoString, codes, ◌==◌, split, trim_space, trim_left,
  trim_right, has_suffix, has_prefix, lower_byte, none, some, pos, ok, if◌then◌else◌,
}
use delegatd.Domain.Time.{utc}
use delegatd.Github.{parse_external_ref, two_parts}
use delegatd.Github.Request.{HttpRequest, HttpAnswer, responded, Method, get, post}
use delegatd.Github.Reference.{IsReference, parse_external_ref-IsReference}
use delegatd.Github.Snapshot.{Packages, RepositorySource, json_accept}
use delegatd.Examples.Config.{minutes, repository_yaml}
use delegatd.Examples.Memory.{noon}
use delegatd.Examples.Verbatim.{verbatim}

abbrev reference : GoString
reference = codes "acme/site"

parsed_reference : parse_external_ref reference ≡ ok (codes "acme", codes "site")
unfolding parse_external_ref two_parts split trim_space trim_left trim_right ◌==◌ has_suffix
    has_prefix lower_byte
parsed_reference = refl

parse_external_ref-IsReference_example : IsReference reference (codes "acme") (codes "site")
parse_external_ref-IsReference_example =
    parse_external_ref-IsReference reference (codes "acme") (codes "site") parsed_reference

abbrev status : Method → ℕ
status get = 200
status post = 201

-- a repository without a configuration
abbrev answer : HttpRequest → HttpAnswer
answer r = responded (if r.accept == json_accept then status r.method else 404) [] none none

abbrev source : RepositorySource
source = record {
  app = record { app_id = pos 7; private_key_file = codes "key.pem" };
  resource = record { external_ref = reference };
  owner = codes "acme";
  repo = codes "site";
  now = noon;
  transport = record {
    base_url = codes "https://api.github.com";
    send = answer;
    parent = λ call. none;
    child = λ call. none;
  };
}

abbrev packages : Packages
packages = record {
  keys = record {
    Key = Unit;
    windows = false;
    key_file = λ path. record { stat = ok (true, 1700, 384); content = ok (codes "PEM") };
    parse_rsa_key = λ s. ok tt;
  };
  sign = λ key id now. ok (codes "jwt");
  urls = record {
    parse = λ s. ok (record {
      scheme = codes "https";
      host = codes "api.github.com";
      path = [];
      raw_path = [];
      raw_query = [];
      fragment = [];
    });
    encode = λ q. [];
    string = λ u. u.path;
    path_escape = λ s. s;
  };
  codec = verbatim;
  decimal = λ n. codes "42";
  parse_time = λ s. ok (record { instant = pos 3600; location = utc });
  equal_fold = λ s t. s == t;
  answers = record {
    installation = λ s. ok (some (pos 5));
    token = λ s. ok (record {
      token = codes "ghs_1";
      expires_at = codes "later";
      permissions = (codes "metadata", codes "read") ∷ (codes "contents", codes "read") ∷ [];
    });
    repository = λ s. ok (record {
      id = some (pos 42);
      full_name = some reference;
      default_branch = some (codes "main");
    });
    commits = λ s. ok (codes "0123456789ABCDEF0123456789abcdef01234567" ∷ []);
  };
  durations = minutes;
  yaml = repository_yaml;
}
