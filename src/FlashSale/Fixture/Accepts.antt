-- ===== src/FlashSale/Fixture/Accepts.antt =====
-- Which fixtures pass: those that list the cohort's actors, each identity and credential once.
use campus_hub.Prelude.{
  ℕ, suc, ◌≡◌, refl, ap, ◌∙◌, true, List, [], ◌∷◌, String, arith, length, all, All, ◌==◌, nat_eq,
  string_eq, Distinct, Distinct_of_length, length-distinct_of_Distinct, option_eq,
}
use campus_hub.Py.{
  ok, ◌>>=◌, Post, returns, Post-bind, Post-require, Post-self, Post-ok, Post-map, raises, Json,
  null, bool, num, str, arr, obj, Items, items, nat, int, float, infinite, nan, pos, negsuc, get,
  has_keys, codes, is_hex,
}
use campus_hub.FlashSale.Ids.{positive_id, is_cohort}
use campus_hub.FlashSale.Ids.Lossless.{IsId, positive_id-IsId, positive_id_of_IsId}
use campus_hub.FlashSale.Fixture.{
  is_credential, is_one, Actor, as_text, check_actor, check_actors, ids, tokens, listed,
  validate_fixture, actor_json, actor_items, fixture_json,
}

pub record IsActor (a : Actor) : Type 0 where
  pub id : IsId a.id
  pub token_length : length (codes a.token) ≡ 32
  pub token_hex : all is_hex (codes a.token) ≡ true

credential_parts :
    (j : Json)
    → is_credential j ≡ true
    → (length (codes (as_text j)) ≡ 32) × (all is_hex (codes (as_text j)) ≡ true)
unfolding is_credential
credential_parts (str s) h = ground arith
credential_parts null h = absurd (ground arith)
credential_parts (bool b) h = absurd (ground arith)
credential_parts (num x) h = absurd (ground arith)
credential_parts (arr js) h = absurd (ground arith)
credential_parts (obj fs) h = absurd (ground arith)

-- An entry of the fixture has the two fields of this actor and no others.
pub record Names (entry : Json) (a : Actor) : Type 0 where
  pub exact : has_keys entry ("id" ∷ "token" ∷ []) ≡ ok true
  pub id : get entry "id" ≡ ok (str a.id)
  pub token : get entry "token" ≡ ok (str a.token)
  pub valid : IsActor a

-- The entries, in order, are these actors.
pub data NamesAll : List Json → List Actor → Type 0 where
  none_left : NamesAll [] []
  next :
      {entry : Json} {a : Actor} {rest : List Json} {actors : List Actor}
      → Names entry a
      → NamesAll rest actors
      → NamesAll (entry ∷ rest) (a ∷ actors)

as_text_str : (j : Json) → is_credential j ≡ true → j ≡ str (as_text j)
unfolding is_credential
as_text_str (str s) h = refl
as_text_str null h = absurd (ground arith)
as_text_str (bool b) h = absurd (ground arith)
as_text_str (num x) h = absurd (ground arith)
as_text_str (arr js) h = absurd (ground arith)
as_text_str (obj fs) h = absurd (ground arith)

check_actor-Names : (j : Json) → Post (Names j) (check_actor j)
unfolding check_actor
check_actor-Names j = Post-require _ λ _. Post-bind (Post-self (has_keys j _)) λ exact keys.
    Post-require _ λ both. Post-bind (Post-self (get j "id")) λ id at_id.
      Post-bind (Post-map (Post-self (positive_id id)) (positive_id-IsId id)) λ identity (e, h).
        Post-bind (Post-self (get j "token")) λ credential at_token. Post-require _ λ c.
          returns (record {
            exact = keys ∙ ap ok both;
            id = at_id ∙ ap ok e;
            token = at_token ∙ ap ok (as_text_str credential c);
            valid = record {
              id = h;
              token_length = (credential_parts credential c).0;
              token_hex = (credential_parts credential c).1;
            };
          })

check_actors-NamesAll :
    (js : List Json)
    → Post (λ actors. (length actors ≡ length js) × NamesAll js actors) (check_actors js)
unfolding check_actors
check_actors-NamesAll [] = returns (refl, none_left)
check_actors-NamesAll (j ∷ js) =
    Post-bind (check_actor-Names j)
      λ a h. Post-bind (check_actors-NamesAll js) λ rest (n, hs). returns (ap suc n, next h hs)

-- The actors that a fixture lists under its three keys, and what is known of them.
pub record Lists (fixture : Json) (n : ℕ) (actors : List Actor) : Type 0 where
  pub supported : is_cohort n ≡ true
  pub exact : has_keys fixture ("version" ∷ "activityId" ∷ "actors" ∷ []) ≡ ok true
  pub version : get fixture "version" ≡ ok (num (nat 1))
  pub activity : String
  pub activity_at : get fixture "activityId" ≡ ok (str activity)
  pub activity_valid : IsId activity
  pub entries : Items
  pub at : get fixture "actors" ≡ ok (arr entries)
  pub names : NamesAll (items entries) actors
  pub size : length actors ≡ n
  pub identities : Distinct (ids actors)
  pub credentials : Distinct (tokens actors)

length-ids : (actors : List Actor) → length (ids actors) ≡ length actors
length-ids [] = refl
length-ids (a ∷ rest) = ap suc (length-ids rest)

length-tokens : (actors : List Actor) → length (tokens actors) ≡ length actors
length-tokens [] = refl
length-tokens (a ∷ rest) = ap suc (length-tokens rest)

one_version : (j : Json) → is_one j ≡ true → j ≡ num (nat 1)
one_version (num (int (pos n))) h = let e : n ≡ 1 = ground arith in rw e refl
one_version (num (int (negsuc n))) h = absurd (ground arith)
one_version (num (float z k)) h = absurd (ground arith)
one_version (num (infinite b)) h = absurd (ground arith)
one_version (num nan) h = absurd (ground arith)
one_version null h = absurd (ground arith)
one_version (bool b) h = absurd (ground arith)
one_version (str s) h = absurd (ground arith)
one_version (arr js) h = absurd (ground arith)
one_version (obj fs) h = absurd (ground arith)

listed_arr :
    (j : Json) → Post (λ values. (js : Items) × (j ≡ arr js) × (values ≡ items js)) (listed j)
listed_arr (arr js) = returns (js, refl, refl)
listed_arr null = raises
listed_arr (bool b) = raises
listed_arr (num x) = raises
listed_arr (str s) = raises
listed_arr (obj fs) = raises

validate_fixture-Lists :
    (fixture : Json) (n : ℕ)
    → Post
        (λ g. (g ≡ fixture) × ((actors : List Actor) × Lists fixture n actors))
        (validate_fixture fixture n)
unfolding validate_fixture
validate_fixture-Lists fixture n = Post-require _ λ supported.
    Post-bind (Post-self (has_keys fixture _)) λ exact keys. Post-require _ λ all_three.
      Post-bind (Post-self (get fixture "version")) λ version at_version. Post-require _ λ one.
        Post-bind (Post-self (get fixture "activityId")) λ activity at_activity.
          Post-bind (Post-map (Post-self (positive_id activity)) (positive_id-IsId activity))
            λ text (same, accepted). Post-bind (Post-self (get fixture "actors")) λ listing at.
              Post-bind (listed_arr listing) λ values (entries, is_list, are_items).
                Post-require _ λ size. Post-bind (check_actors-NamesAll values) λ actors (m, names).
                  Post-require _ λ unique. returns (
                    refl,
                    (
                      actors,
                      record {
                        supported = supported;
                        exact = keys ∙ ap ok all_three;
                        version = at_version ∙ ap ok (one_version version one);
                        activity = text;
                        activity_at = at_activity ∙ ap ok same;
                        activity_valid = accepted;
                        entries = entries;
                        at = at ∙ ap ok is_list;
                        names = rw are_items at names;
                        size = ground arith;
                        identities =
                            Distinct_of_length (ids actors) (ground (arith, length-ids actors));
                        credentials =
                            Distinct_of_length (tokens actors)
                              (ground (arith, length-tokens actors));
                      },
                    ),
                  )

-- A fixture that passes is returned as it is. It has exactly the keys version, activityId and
-- actors; the version is 1, the activity an accepted identity, and the actors are a list of as
-- many entries as the configured, supported cohort has. Each entry has exactly an id and a token,
-- which are an accepted identity and a text of 32 hexadecimal digits, and no identity and no
-- credential stands twice.
pub validate_fixture_sound :
    (fixture g : Json) (n : ℕ)
    → validate_fixture fixture n ≡ ok g
    → (g ≡ fixture) × ((actors : List Actor) × Lists fixture n actors)
validate_fixture_sound fixture g n h = Post-ok (validate_fixture-Lists fixture n) h

check_actor-actor_json : (a : Actor) → IsActor a → check_actor (actor_json a) ≡ ok a
unfolding check_actor has_keys get ◌>>=◌ option_eq string_eq nat_eq
check_actor-actor_json a h = rw (positive_id_of_IsId a.id h.id, h.token_length, h.token_hex) refl

check_actors-actor_items :
    (actors : List Actor)
    → All IsActor actors
    → check_actors (items (actor_items actors)) ≡ ok actors
unfolding check_actors items ◌>>=◌
check_actors-actor_items [] h = refl
check_actors-actor_items (a ∷ rest) (h, hs) =
    rw (check_actor-actor_json a h, check_actors-actor_items rest hs) refl

length-actor_items : (actors : List Actor) → length (items (actor_items actors)) ≡ length actors
unfolding items
length-actor_items [] = refl
length-actor_items (a ∷ rest) = ap suc (length-actor_items rest)

same_count : (n : ℕ) → (n == n) ≡ true
same_count n = ground arith

-- The fixture that is written for an accepted activity passes for a cohort of a supported size,
-- if its actors have accepted identities, credentials of 32 hexadecimal digits, and no identity
-- and no credential in common.
pub validate_fixture-fixture_json :
    (activity : String) (actors : List Actor)
    → IsId activity
    → is_cohort (length actors) ≡ true
    → All IsActor actors
    → Distinct (ids actors)
    → Distinct (tokens actors)
    → validate_fixture (fixture_json activity actors) (length actors)
      ≡ ok (fixture_json activity actors)
unfolding validate_fixture has_keys get ◌>>=◌ option_eq string_eq nat_eq
validate_fixture-fixture_json activity actors i c h d t =
    rw
      (
        c,
        positive_id_of_IsId activity i,
        length-actor_items actors,
        check_actors-actor_items actors h,
        length-distinct_of_Distinct (ids actors) d,
        length-distinct_of_Distinct (tokens actors) t,
        length-ids actors,
        length-tokens actors,
        same_count (length actors),
      )
      refl
