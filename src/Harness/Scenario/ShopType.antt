-- ===== src/Harness/Scenario/ShopType.antt =====
-- `verify_shop_type_module` of scripts/verify-compose.py, in its two parts.
use campus_hub.Prelude.{
  ℕ, String, ◌<>◌, true, false, List, [], ◌∷◌, Option, none, some, ◌==◌, nat_eq, string_eq,
  if◌then◌else◌,
}
use campus_hub.Py.{Json, num, str, arr, nil, nat, pos, json_eq, assertion_error, show}
use campus_hub.Harness.Exec.{Exec, ◌>>=◌, ◌>>◌, pure, raise, assert}
use campus_hub.Harness.Compose.{redis, request_with, request, parse, check}
use campus_hub.Harness.Script.{
  uuid4, each, gives, gives_or, between, between_or, do_redis, do_sql, authorized, given, padded,
  broken_then, signed_in,
}
use campus_hub.Harness.Answers.{
  answer, refused, at, states, says, array, is_int, has_names_or, has_ids, has_ids_or, rows_with,
  size_of, conceals,
}

abbrev key : String
key = "cache:shop:type"

abbrev fixture_ids : List Json
fixture_ids = num (nat 995201) ∷ num (nat 995202) ∷ num (nat 995203) ∷ num (nat 995204) ∷ []

-- A shop type's row, and whether it has a sort.
abbrev checks_row : Json → Exec (Unit {0})
checks_row row = do
  id ← at row "id"
  is_int id
  has_names_or row
      ("id" ∷ "name" ∷ "icon" ∷ (if json_eq id (num (nat 995203)) then [] else "sort" ∷ []))
      "preserve entity JSON and ignored timestamps"

-- `len(own) == 4`, and the rows of the first, the two in the middle, and the last.
abbrev pub in_order : List Json → Exec (Unit {0})
in_order (first ∷ second ∷ third ∷ last ∷ []) = do
  states first "id" (num (nat 995203))
  states last "id" (num (nat 995201))
  has_ids_or (array (second ∷ third ∷ [])) (num (nat 995202) ∷ num (nat 995204) ∷ [])
      "equal sort values have no promised tie order"
in_order _ = raise (assertion_error "")

module _ (base : String) where
  abbrev reader : ℕ × Option String × String → Exec (Unit {0})
  reader (user_id, role, status) = do
    do_sql (
        "INSERT INTO tb_user(id,phone,nick_name,status) VALUES("
        <> show user_id
        <> ",'"
        <> padded 11 user_id
        <> "','synthetic-type-reader','"
        <> status
        <> "');")
    given role (λ name.
        do_sql (
          "INSERT INTO tb_user_role(user_id,role) VALUES("
          <> show user_id
          <> ",'"
          <> name
          <> "');"))
    token ← signed_in "synthetic-type-reader-" user_id ("nickName" ∷ "synthetic" ∷ [])
    refused (request_with base "/shop-type/list" 200 "GET" none (authorized token))

  -- The items, and their text in the cache.
  abbrev categories : List String → Exec (Json × String)
  categories tokens = do
    do_sql (
        "INSERT INTO tb_shop_type(id,name,icon,sort) VALUES"
        <> "(995201,'synthetic-type-late','late.svg',9),(995202,'synthetic-type-early','early.svg',2),"
        <> "(995203,'synthetic-type-null','null.svg',NULL),(995204,'synthetic-type-tie','tie.svg',2);")
    do_redis ("DEL" ∷ key ∷ [])
    payload ← answer (request base "/shop-type/list" 200)
    says payload "success" true
    items ← at payload "data"
    own ← rows_with items fixture_ids
    in_order own
    each own checks_row
    raw ← redis ("GET" ∷ key ∷ [])
    cached ← parse raw
    cached_size ← size_of cached
    item_size ← size_of items
    assert (cached_size == item_size) ""
    between (pos 1790) (redis ("TTL" ∷ key ∷ [])) (pos 1800)
    each tokens
        (λ token. refused (request_with base "/shop-type/list" 200 "GET" none (authorized token)))
    each
        ((995210, some "MERCHANT", "ACTIVE")
          ∷ (995211, some "USER", "DISABLED")
          ∷ (995212, none, "ACTIVE")
          ∷ [])
        reader
    identifier ← uuid4
    refused (
        request_with base "/shop-type/list" 200 "GET" none
          (authorized ("synthetic-expired-" <> identifier)))
    check
        "merchant categories: actual public roles, sort/NULL/tie contract, numeric IDs, hidden timestamps and legacy cache key/TTL"
    pure (items, raw)

  abbrev generic_failure : Exec (Unit {0})
  generic_failure = do
    result ← answer (request base "/shop-type/list" 500)
    says result "success" false
    states result "errorCode" (str "INTERNAL_ERROR")
    conceals result "errorMsg" "shop_type"
    conceals result "errorMsg" "SQL"

  abbrev lists_data : Json → Exec (Unit {0})
  lists_data expected = do
    result ← answer (request base "/shop-type/list" 200)
    states result "data" expected

  abbrev cache_faults : Json → String → Exec (Unit {0})
  cache_faults items raw = do
    broken_then "RENAME TABLE tb_shop_type TO phase7s_owned_shop_type_fault;"
        "RENAME TABLE phase7s_owned_shop_type_fault TO tb_shop_type;"
        (do
          do_redis ("EXPIRE" ∷ key ∷ "120" ∷ [])
          lists_data items
          gives (redis ("GET" ∷ key ∷ [])) raw
          between_or (pos 110) (redis ("TTL" ∷ key ∷ [])) (pos 120) "cache hit must not reset TTL"
          do_redis ("SET" ∷ key ∷ "[]" ∷ [])
          lists_data (arr nil)
          gives (redis ("GET" ∷ key ∷ [])) "[]"
          do_redis ("SET" ∷ key ∷ "{broken" ∷ [])
          generic_failure
          gives (redis ("GET" ∷ key ∷ [])) "{broken"
          do_redis ("SET" ∷ key ∷ " " ∷ [])
          generic_failure
          gives_or (redis ("STRLEN" ∷ key ∷ [])) "1"
              "SQL failure must preserve the single ASCII-space cache value"
          gives_or (redis ("BITFIELD" ∷ key ∷ "GET" ∷ "u8" ∷ "0" ∷ [])) "32"
              "SQL failure must preserve the single ASCII-space cache value")
        (do_redis ("DEL" ∷ key ∷ []))
    do_redis ("SET" ∷ key ∷ " " ∷ [])
    result ← answer (request base "/shop-type/list" 200)
    restored ← at result "data"
    own ← rows_with restored fixture_ids
    has_ids (array own) fixture_ids
    between (pos 1790) (redis ("TTL" ∷ key ∷ [])) (pos 1800)
    do_sql "DELETE FROM tb_shop_type WHERE id IN (995201,995202,995203,995204);"
    do_redis ("DEL" ∷ key ∷ [])
    check
        "merchant categories: cache hit and empty hit skip unavailable SQL; malformed JSON/SQL faults stay generic; blank cache refills after recovery"

  unfoldable pub verify_shop_type_module : List String → Exec (Unit {0})
  verify_shop_type_module tokens = do before ← categories tokens; cache_faults before.0 before.1
