-- ===== src/Tests/Owned.antt =====
-- A request to the application of the test stack, and one that would leave this host.
use campus_hub.Prelude.{◌≡◌, refl, none, [], ◌∷◌, nat_eq}
use campus_hub.Py.{err, value_error, after, is_positive_numeral, decimal_from}
use campus_hub.Harness.Exec.{◌>>=◌}
use campus_hub.FlashSale.Owned.{is_owned, owned_request}
use campus_hub.FlashSale.Owned.Local.{AsksLocally, owned_request-AsksLocally}
use campus_hub.Tests.Harness.{base, world, start}

elsewhere :
    owned_request "http://127.0.0.1:80@example.org:80" "/" 200 "GET" none [] world start
    ≡ (err (value_error "requests require discovered localhost target"), start)
unfolding owned_request is_owned after is_positive_numeral decimal_from nat_eq ◌>>=◌
elsewhere = refl

owned_request-AsksLocally_example :
    AsksLocally base "/user/me" [] (
      owned_request base "/user/me" 200 "GET" none
        (("authorization", "synthetic") ∷ [])
        world
        start)
owned_request-AsksLocally_example =
    owned_request-AsksLocally base "/user/me" 200 "GET" none (("authorization", "synthetic") ∷ [])
      world start
