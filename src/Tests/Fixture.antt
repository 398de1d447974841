-- ===== src/Tests/Fixture.antt =====
-- A warm-up cohort of ten actors.
use campus_hub.Prelude.{
  ℕ, zero, suc, ◌+◌, ◌≡◌, refl, Bool, true, ◌&&◌, List, [], ◌∷◌, ◌<>◌, length, leb, ◌==◌, distinct,
  string_eq, nat_eq, option_eq, arith, all, All,
}
use campus_hub.Py.{
  ok, ◌>>=◌, has_keys, get, items, show, Json, is_positive_numeral, decimal_from, decimal, codes,
  is_hex,
}
use campus_hub.FlashSale.Ids.{is_cohort, positive_id, is_long_numeral, max_long}
use campus_hub.FlashSale.Ids.Lossless.{IsId}
use campus_hub.FlashSale.Fixture.{Actor, validate_fixture, fixture_json, check_actors, check_actor}
use campus_hub.FlashSale.Fixture.Accepts.{
  IsActor, Lists, validate_fixture_sound, validate_fixture-fixture_json,
}

-- `n` actors, the last one first.
abbrev actors : ℕ → List Actor
actors zero = []
actors (suc n) =
    record { id = show (n + 1); token = "0123456789abcdef0123456789" <> show (100001 + n) }
    ∷ actors n

abbrev ten : List Actor
ten = actors 10

abbrev fixture : Json
fixture = fixture_json "123" ten

passes : validate_fixture fixture 10 ≡ ok fixture
unfolding validate_fixture has_keys get ◌>>=◌ option_eq string_eq nat_eq is_cohort positive_id
    check_actors check_actor items show is_long_numeral is_positive_numeral decimal_from distinct
passes = refl

validate_fixture_sound_example :
    (fixture ≡ fixture) × ((actors : List Actor) × Lists fixture 10 actors)
validate_fixture_sound_example = validate_fixture_sound fixture fixture 10 passes

abbrev is_actor : Actor → Bool
is_actor a =
    is_positive_numeral (codes a.id)
    && leb (decimal a.id) max_long
    && length (codes a.token) == 32
    && all is_hex (codes a.token)

actor_of_test : (a : Actor) → is_actor a ≡ true → IsActor a
actor_of_test a h = record {
  id = record { canonical = ground arith; in_range = ground arith };
  token_length = ground arith;
  token_hex = ground arith;
}

actors_of_test : (actors : List Actor) → all is_actor actors ≡ true → All IsActor actors
actors_of_test [] h = tt
actors_of_test (a ∷ rest) h = (actor_of_test a (ground arith), actors_of_test rest (ground arith))

ten_actors : all is_actor ten ≡ true
unfolding is_positive_numeral decimal_from nat_eq show
ten_actors = refl

activity_IsId : IsId "123"
unfolding is_positive_numeral decimal_from
activity_IsId = record { canonical = refl; in_range = omega arith }

validate_fixture-fixture_json_example :
    validate_fixture (fixture_json "123" ten) 10 ≡ ok (fixture_json "123" ten)
unfolding is_cohort nat_eq string_eq show
validate_fixture-fixture_json_example =
    validate_fixture-fixture_json "123" ten activity_IsId refl (actors_of_test ten ten_actors)
      (refl, (refl, (refl, (refl, (refl, (refl, (refl, (refl, (refl, (refl, tt))))))))))
      (refl, (refl, (refl, (refl, (refl, (refl, (refl, (refl, (refl, (refl, tt))))))))))
