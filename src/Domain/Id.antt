-- ===== src/Domain/Id.antt =====
-- internal/domain/task.go: the grammar of task and resource identifiers, and `NewID`.
use delegatd.Prelude.{
  ℕ, ◌≡◌, refl, Bool, true, false, ◌&&◌, ◌||◌, Option, none, some, [], ◌∷◌, ◌++◌, arith, GoString,
  codes, Result, ok, err, plain, length, all, leb, eqb, in_range, if◌then◌else◌,
}

-- A regular expression `^prefix…`: what follows the literal prefix, if it is there.
strip_prefix : GoString → GoString → Option GoString
strip_prefix [] value = some value
strip_prefix (p ∷ prefix) [] = none
strip_prefix (p ∷ prefix) (b ∷ value) = if eqb b p then strip_prefix prefix value else none

-- `[A-Z2-7]`
abbrev pub is_base32 : ℕ → Bool
is_base32 b = in_range b'A' b'Z' b || in_range b'2' b'7' b

-- `[A-Z2-7]{26,128}$`
unfoldable pub is_id_body : GoString → Bool
is_id_body body = leb 26 (length body) && leb (length body) 128 && all is_base32 body

abbrev pub task_prefix : GoString
task_prefix = codes "task_"

abbrev pub resource_prefix : GoString
resource_prefix = codes "resource_"

match_body : Option GoString → Bool
match_body none = false
match_body (some body) = is_id_body body

-- `taskIDPattern` and `resourceIDPattern`
unfoldable pub matches_id : GoString → GoString → Bool
unfolding strip_prefix match_body
matches_id prefix value = match_body (strip_prefix prefix value)

unfoldable pub parse_task_id : GoString → Result GoString
unfolding matches_id
parse_task_id value =
    if matches_id task_prefix value then ok value else err (plain (codes "invalid task ID"))

unfoldable pub parse_resource_id : GoString → Result GoString
unfolding matches_id
parse_resource_id value =
    if matches_id resource_prefix value then ok value else err (plain (codes "invalid resource ID"))

-- `NewID`; `text` is what `rand.Text` returned.
unfoldable pub new_id : GoString → GoString → GoString
new_id text prefix = prefix ++ text

-- `ParseTaskID` returns its argument or an error, never another identifier.
pub parse_task_id-eq : (value : GoString) {id : GoString} → parse_task_id value ≡ ok id → id ≡ value
unfolding parse_task_id
parse_task_id-eq value {id} h = ground arith

strip_prefix-append : (p s : GoString) → strip_prefix p (p ++ s) ≡ some s
unfolding strip_prefix
strip_prefix-append [] s = refl
strip_prefix-append (b ∷ p) s = ground (arith, strip_prefix-append p s)

-- An identifier that `NewID` makes from 26 to 128 characters of the base32 alphabet is accepted.
pub parse_task_id-new_id :
    (text : GoString)
    → is_id_body text ≡ true
    → parse_task_id (new_id text task_prefix) ≡ ok (new_id text task_prefix)
unfolding parse_task_id new_id
parse_task_id-new_id text h = rw h

pub parse_resource_id-new_id :
    (text : GoString)
    → is_id_body text ≡ true
    → parse_resource_id (new_id text resource_prefix) ≡ ok (new_id text resource_prefix)
unfolding parse_resource_id new_id
parse_resource_id-new_id text h = rw h
