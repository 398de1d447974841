-- ===== src/FlashSale/Fixture.antt =====
-- `validate_fixture`: the private file that a cohort's k6 run reads.
pub mod Accepts
use campus_hub.Prelude.{
  ℕ, zero, suc, ◌≡◌, Bool, true, false, ◌&&◌, List, [], ◌∷◌, String, length, all, ◌==◌, nat_eq,
  string_eq, distinct,
}
use campus_hub.Py.{
  Result, ok, err, value_error, ◌>>=◌, ◌>>◌, require, Json, num, str, arr, obj, Items, nil, cons,
  Fields, end, field, nat, items, Number, int, ℤ, pos, get, has_keys, is_dict, codes, is_hex,
}
use campus_hub.FlashSale.Ids.{is_cohort, positive_id}

-- `type(version) is int and version == 1`
abbrev pub is_one : Json → Bool
is_one (num (int (pos n))) = n == 1
is_one _ = false

-- `[0-9a-f]{32}`
unfoldable pub is_credential : Json → Bool
is_credential (str s) = length (codes s) == 32 && all is_hex (codes s)
is_credential _ = false

pub record Actor : Type 0 where
  pub id : String
  pub token : String

abbrev pub as_text : Json → String
as_text (str s) = s
as_text _ = ""

unfoldable pub check_actor : Json → Result Actor
unfolding is_credential
check_actor entry = do
  require (is_dict entry) (value_error "unexpected actor schema")
  exact ← has_keys entry ("id" ∷ "token" ∷ [])
  require exact (value_error "unexpected actor schema")
  id ← get entry "id"
  identity ← positive_id id
  credential ← get entry "token"
  require (is_credential credential) (value_error "invalid synthetic credential")
  ok (record { id = identity; token = as_text credential })

-- The loop over the entries collects their identities and credentials in order.
unfoldable pub check_actors : List Json → Result (List Actor)
check_actors [] = ok []
check_actors (entry ∷ rest) = do
  actor ← check_actor entry
  actors ← check_actors rest
  ok (actor ∷ actors)

abbrev pub ids : List Actor → List String
ids [] = []
ids (a ∷ rest) = a.id ∷ ids rest

abbrev pub tokens : List Actor → List String
tokens [] = []
tokens (a ∷ rest) = a.token ∷ tokens rest

-- `not isinstance(values, list) or len(values) != actors`
abbrev pub listed : Json → Result (List Json)
listed (arr js) = ok (items js)
listed _ = err (value_error "fixture size differs from configured VUs")

unfoldable pub validate_fixture : Json → ℕ → Result Json
validate_fixture fixture actors = do
  require (is_cohort actors) (value_error "unsupported cohort")
  exact ← has_keys fixture ("version" ∷ "activityId" ∷ "actors" ∷ [])
  require exact (value_error "unexpected fixture schema")
  version ← get fixture "version"
  require (is_one version) (value_error "unexpected fixture schema")
  activity ← get fixture "activityId"
  _ ← positive_id activity
  listing ← get fixture "actors"
  values ← listed listing
  require (length values == actors) (value_error "fixture size differs from configured VUs")
  checked ← check_actors values
  require
      (length (distinct (ids checked)) == actors && length (distinct (tokens checked)) == actors)
      (value_error "duplicate synthetic identity or credential")
  ok fixture

-- The dict that `cohort` writes for its activity and its actors.
abbrev pub actor_json : Actor → Json
actor_json a = obj (field "id" (str a.id) (field "token" (str a.token) end))

abbrev pub actor_items : List Actor → Items
actor_items [] = nil
actor_items (a ∷ rest) = cons (actor_json a) (actor_items rest)

abbrev pub fixture_json : String → List Actor → Json
fixture_json activity actors = obj (
    field "version" (num (nat 1))
      (field "activityId" (str activity) (field "actors" (arr (actor_items actors)) end)))
