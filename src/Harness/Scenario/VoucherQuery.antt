-- ===== src/Harness/Scenario/VoucherQuery.antt =====
-- `verify_voucher_query_module` of scripts/verify-compose.py, in its two parts.
use campus_hub.Prelude.{ℕ, ◌+◌, String, ◌<>◌, true, false, List, [], ◌∷◌, nat_eq, string_eq}
use campus_hub.Py.{Json, num, str, arr, nil, nat, show}
use campus_hub.Harness.Exec.{Exec, ◌>>=◌, ◌>>◌, pure}
use campus_hub.Harness.Compose.{sql, request, check}
use campus_hub.Harness.Script.{each, gives, do_sql, table_renamed}
use campus_hub.Harness.Answers.{
  answer, refused, states, says, at, elements, has_names, is_int, hides, conceals, has_ids,
  item_with,
}

abbrev shop : ℕ
shop = 9007199254743993

abbrev ordinary : ℕ
ordinary = 9007199254744001

abbrev route : String
route = "/voucher/list/" <> show shop

abbrev snapshot_sql : String
snapshot_sql =
    "SELECT * FROM tb_voucher WHERE shop_id IN ("
    <> show shop
    <> ","
    <> show (shop + 1)
    <> ") ORDER BY id;"

abbrev stock_sql : String
stock_sql =
    "SELECT * FROM tb_seckill_voucher WHERE voucher_id IN (998302,998303) ORDER BY voucher_id;"

-- `expected - {998304}`, and `expected`
abbrev without_hidden : List Json
without_hidden = num (nat ordinary) ∷ num (nat 998302) ∷ num (nat 998303) ∷ []

abbrev expected : List Json
expected = num (nat 998304) ∷ without_hidden

abbrev base_fields : List String
base_fields =
    "id" ∷ "shopId" ∷ "title" ∷ "subTitle" ∷ "rules" ∷ "payValue" ∷ "actualValue" ∷ "type" ∷ []

abbrev prepare : Exec (Unit {0})
prepare = do
  do_sql (
      "INSERT INTO tb_voucher(id,shop_id,title,sub_title,rules,pay_value,actual_value,type,status) VALUES("
      <> show ordinary
      <> ","
      <> show shop
      <> ",'synthetic-ordinary','subtitle','rules',9007199254741993,9007199254742993,0,1),(998302,"
      <> show shop
      <> ",'synthetic-expired','s','r',1,2,1,1),(998303,"
      <> show shop
      <> ",'synthetic-future','s','r',1,2,1,1),(998304,"
      <> show shop
      <> ",'synthetic-no-stock-row','s','r',1,2,1,1),(998305,"
      <> show shop
      <> ",'synthetic-hidden','s','r',1,2,1,0),(998306,"
      <> show (shop + 1)
      <> ",'synthetic-other-shop','s','r',1,2,0,1);")
  do_sql (
      "INSERT INTO tb_seckill_voucher(voucher_id,stock,begin_time,end_time) VALUES"
      <> "(998302,0,'2000-01-01 01:02:03','2000-01-02 02:03:04'),"
      <> "(998303,7,'2035-01-01 03:04:05','2035-01-02 04:05:06');")

module _ (base : String) where
  -- The catalog lists these vouchers.
  abbrev catalogs : List Json → Exec (Unit {0})
  catalogs ids = do
    result ← answer (request base route 200)
    vouchers ← at result "data"
    has_ids vouchers ids

  abbrev catalog : Exec (String × String)
  catalog = do
    prepare
    first ← sql snapshot_sql
    stock_before ← sql stock_sql
    result ← answer (request base route 200)
    says result "success" true
    vouchers ← at result "data"
    has_ids vouchers expected
    items ← elements vouchers
    plain ← item_with ordinary items
    has_names plain base_fields
    unstocked ← item_with 998304 items
    has_names unstocked base_fields
    id ← at plain "id"
    is_int id
    states plain "shopId" (num (nat shop))
    states plain "payValue" (num (nat 9007199254741993))
    states plain "actualValue" (num (nat 9007199254742993))
    expired ← item_with 998302 items
    states expired "stock" (num (nat 0))
    states expired "beginTime" (str "2000-01-01T01:02:03")
    future ← item_with 998303 items
    states future "endTime" (str "2035-01-02T04:05:06")
    each (plain ∷ expired ∷ future ∷ unstocked ∷ [])
        (λ row. hides row ("status" ∷ "createTime" ∷ "updateTime" ∷ []))
    other ← answer (request base ("/voucher/list/" <> show (shop + 2)) 200)
    states other "data" (arr nil)
    each ("0" ∷ "-1" ∷ "9223372036854775808" ∷ "bad" ∷ [])
        (λ invalid. refused (request base ("/voucher/list/" <> invalid) 400))
    gives (sql snapshot_sql) first
    gives (sql stock_sql) stock_before
    do_sql "UPDATE tb_voucher SET status=0 WHERE id=998304;"
    hidden_snapshot ← sql snapshot_sql
    catalogs without_hidden
    gives (sql snapshot_sql) hidden_snapshot
    gives (sql stock_sql) stock_before
    do_sql "UPDATE tb_voucher SET status=1 WHERE id=998304;"
    before ← sql snapshot_sql
    gives (sql stock_sql) stock_before
    check
        "promotion catalog: anonymous public read, numeric large IDs/amounts, status-only filtering, LEFT JOIN ordinary/missing/expired/zero/future stock, no shop-existence rule or cache"
    pure (before, stock_before)

  -- A round of the loop.
  abbrev table_fault : String → String → Exec (Unit {0})
  table_fault table fault = table_renamed table fault (do
    result ← answer (request base route 500)
    says result "success" false
    states result "errorCode" (str "INTERNAL_ERROR")
    conceals result "errorMsg" table
    conceals result "errorMsg" "SQL")

  abbrev table_faults : String → String → Exec (Unit {0})
  table_faults before stock_before = do
    table_fault "tb_voucher" "phase7w_owned_voucher_fault"
    table_fault "tb_seckill_voucher" "phase7w_owned_stock_fault"
    gives (sql snapshot_sql) before
    gives (sql stock_sql) stock_before
    catalogs expected
    check
        "promotion catalog: either SQL table fault stays generic 500, no empty-success fallback or data writes, recovery reads the same rows"

  unfoldable pub verify_voucher_query_module : Exec (Unit {0})
  verify_voucher_query_module = do before ← catalog; table_faults before.0 before.1
