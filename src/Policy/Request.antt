-- ===== src/Policy/Request.antt =====
-- internal/policy/resolve.go: `NormalizeRequest`.
pub mod Normal
use delegatd.Prelude.{
  ◌≡◌, refl, Bool, true, false, ◌&&◌, ◌||◌, not, List, [], ◌∷◌, ◌++◌, GoString, codes, ◌==◌, GoMap,
  StringSet, insert, contains, Result, ok, err, plain, ◌>>=◌, ◌>>◌, if◌then◌else◌,
}
use delegatd.Domain.Task.{PolicyRequest, allow, deny}
use delegatd.Policy.Names.{is_action_name}
use delegatd.Policy.Paths.{normalize_protected_path}

-- the two tests of the loop over the actions
check_action : GoString → GoString → Result (Unit {0})
check_action name decision =
    if not (is_action_name name)
    then err (plain (codes "invalid policy action name"))
    else if not (decision == allow) && not (decision == deny)
    then err (plain (codes "invalid policy decision"))
    else ok tt

-- The loop over the actions, which Go runs in any order.
unfoldable pub normalize_actions : GoMap GoString → Result (GoMap GoString)
unfolding check_action
normalize_actions [] = ok []
normalize_actions ((name, decision) ∷ m) = do
  _ ← check_action name decision
  actions ← normalize_actions m
  ok (insert name decision actions)

-- the test of `seen`
check_fresh : GoString → StringSet → Result (Unit {0})
check_fresh pattern_text seen =
    if contains pattern_text seen then err (plain (codes "duplicate protected path")) else ok tt

-- The loop over the protected paths; `seen` holds the patterns so far.
unfoldable pub normalize_paths : List GoString → StringSet → Result (List GoString)
unfolding check_fresh
normalize_paths [] seen = ok []
normalize_paths (raw ∷ raws) seen = do
  pattern_text ← normalize_protected_path raw
  _ ← check_fresh pattern_text seen
  rest ← normalize_paths raws (insert pattern_text tt seen)
  ok (pattern_text ∷ rest)

unfoldable pub normalize_request : PolicyRequest → Result PolicyRequest
normalize_request request = do
  actions ← normalize_actions request.actions
  protected_paths ← normalize_paths request.protected_paths []
  ok (record { actions = actions; protected_paths = protected_paths })
