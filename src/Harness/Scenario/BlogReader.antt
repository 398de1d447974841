-- ===== src/Harness/Scenario/BlogReader.antt =====
-- `verify_blog_user_reader` of scripts/verify-compose.py, in its two parts.
use campus_hub.Prelude.{ℕ, String, ◌<>◌, true, false, List, [], ◌∷◌, none, nat_eq, string_eq, map}
use campus_hub.Py.{Json, num, str, arr, nil, nat, show}
use campus_hub.Harness.Values.{at_index}
use campus_hub.Harness.Exec.{Exec, ◌>>=◌, ◌>>◌, pure, lift, finally}
use campus_hub.Harness.Compose.{redis, sql, request_with, request, check}
use campus_hub.Harness.Script.{
  each, gives, do_redis, do_sql, authorized, show_ℤ, quoted, joined, padded, column_renamed,
  signed_in,
}
use campus_hub.Harness.Answers.{
  answer, refused, states, says, is_same, at, internal_error, whole_of, elements, has_names, lists,
  is_int, hides,
}

abbrev user : ℕ
user = 992701

abbrev merchant : ℕ
merchant = 992702

abbrev admin : ℕ
admin = 992703

-- The first three are the actors', the others those of the authors and likers.
abbrev owned_phones : List String
owned_phones =
    map (padded 11) (user ∷ merchant ∷ admin ∷ 992801 ∷ 992802 ∷ 992803 ∷ 992804 ∷ 992805 ∷ [])

abbrev author : ℕ
author = 9007199254745993

abbrev first : ℕ
first = 9007199254745997

abbrev second : ℕ
second = 9007199254745995

abbrev missing : ℕ
missing = 9007199254745999

abbrev fourth : ℕ
fourth = 9007199254746001

abbrev excluded : ℕ
excluded = 9007199254746003

abbrev post : ℕ
post = 9007199254746101

abbrev empty : ℕ
empty = 9007199254746103

abbrev orphan : ℕ
orphan = 9007199254746105

abbrev liked_key : String
liked_key = "blog:liked:" <> show post

abbrev feed_key : String
feed_key = "feed:" <> show user

abbrev users_sql : String
users_sql =
    "SELECT * FROM tb_user WHERE id IN ("
    <> joined (map show (author ∷ first ∷ second ∷ fourth ∷ excluded ∷ []))
    <> ") ORDER BY id;"

abbrev posts_sql : String
posts_sql =
    "SELECT * FROM tb_blog WHERE id IN (" <> show post <> "," <> show empty <> ") ORDER BY id;"

abbrev profile_of : ℕ → Json
profile_of id = str ("profile-" <> show id)

abbrev enter : ℕ × String → Exec String
enter (actor, role) = do
  do_sql (
      "INSERT INTO tb_user(id,phone,nick_name,status) VALUES("
      <> show actor
      <> ",'"
      <> padded 11 actor
      <> "','actor','ACTIVE');INSERT INTO tb_user_role(user_id,role) VALUES("
      <> show actor
      <> ",'"
      <> role
      <> "');")
  signed_in "synthetic-blog-reader-" actor ("nickName" ∷ "session-not-author" ∷ [])

-- An author or a liker, whose phone is the one of the number.
abbrev insert_user : ℕ × ℕ × String → Exec (Unit {0})
insert_user (id, number, status) = do_sql (
    "INSERT INTO tb_user(id,phone,password,nick_name,icon,status) VALUES("
    <> show id
    <> ",'"
    <> padded 11 number
    <> "','synthetic-only','profile-"
    <> show id
    <> "','profile.svg','"
    <> status
    <> "');")

abbrev projection : String → Exec String
projection key = redis ("ZRANGE" ∷ key ∷ "0" ∷ "-1" ∷ "WITHSCORES" ∷ [])

-- What the second part reads of the first.
pub record Before : Type 0 where
  pub token : String
  pub users : String
  pub posts : String
  pub liked : String
  pub feed : String

module _ (base : String) where
  abbrev query : String → String → ℕ → Exec Json
  query token route expected =
      answer (request_with base route expected "GET" none (authorized token))

  abbrev has_likers : String → Exec (Unit {0})
  has_likers token = do
    result ← query token ("/blog/likes/" <> show post) 200
    says result "success" true
    likers ← at result "data"
    lists likers "id"
        (num (nat first) ∷ num (nat second) ∷ num (nat author) ∷ num (nat fourth) ∷ [])
    listed ← elements likers
    each listed (λ liker. do
      has_names liker ("id" ∷ "nickName" ∷ "icon" ∷ [])
      id ← at liker "id"
      is_int id
      number ← whole_of id
      states liker "nickName" (str ("profile-" <> show_ℤ number)))

  abbrev reads : String → Exec (Unit {0})
  reads token = do
    result ← query token ("/blog/" <> show post <> "?userId=" <> show merchant) 200
    item ← at result "data"
    states item "id" (num (nat post))
    states item "userId" (num (nat author))
    id ← at item "userId"
    is_int id
    states item "name" (profile_of author)
    states item "icon" (str "profile.svg")
    says item "isLike" false
    hides item ("phone" ∷ "password" ∷ "status" ∷ "nickName" ∷ [])
    has_likers token

  abbrev enrichment : Exec Before
  enrichment = do
    gives (sql ("SELECT COUNT(*) FROM tb_user WHERE phone IN (" <> quoted owned_phones <> ");")) "0"
    user_token ← enter (user, "USER")
    merchant_token ← enter (merchant, "MERCHANT")
    admin_token ← enter (admin, "ADMIN")
    each
        ((author, 992801, "DISABLED")
          ∷ (first, 992802, "ACTIVE")
          ∷ (second, 992803, "DISABLED")
          ∷ (fourth, 992804, "ACTIVE")
          ∷ (excluded, 992805, "ACTIVE")
          ∷ [])
        insert_user
    do_sql (
        "INSERT INTO tb_blog(id,user_id,title,images,content,liked,comments,withdrawn) VALUES("
        <> show post
        <> ","
        <> show author
        <> ",'synthetic-reader','', 'body',2147483640,0,0),("
        <> show empty
        <> ","
        <> show author
        <> ",'synthetic-reader-empty','', 'body',0,0,0);")
    do_redis (
        "ZADD"
        ∷ liked_key
        ∷ "1"
        ∷ show first
        ∷ "2"
        ∷ show second
        ∷ "3"
        ∷ show missing
        ∷ "4"
        ∷ show author
        ∷ "5"
        ∷ show fourth
        ∷ "6"
        ∷ show excluded
        ∷ [])
    do_redis ("ZADD" ∷ feed_key ∷ "100" ∷ show post ∷ "99" ∷ show empty ∷ [])
    do_redis ("EXPIRE" ∷ liked_key ∷ "600" ∷ [])
    do_redis ("EXPIRE" ∷ feed_key ∷ "600" ∷ [])
    users_before ← sql users_sql
    posts_before ← sql posts_sql
    liked_before ← projection liked_key
    feed_before ← projection feed_key
    each (user_token ∷ merchant_token ∷ admin_token ∷ []) reads
    refused (request base ("/blog/" <> show post) 401)
    refused (request base ("/blog/likes/" <> show post) 401)
    hot_answer ← answer (request base "/blog/hot" 200)
    hot_posts ← at hot_answer "data"
    hot ← lift (at_index 0 hot_posts)
    states hot "id" (num (nat post))
    states hot "name" (profile_of author)
    says hot "isLike" false
    feed_answer ← query user_token "/blog/of/follow?lastId=100&offset=0" 200
    feed ← at feed_answer "data"
    feed_posts ← at feed "list"
    lists feed_posts "id" (num (nat post) ∷ num (nat empty) ∷ [])
    fed ← elements feed_posts
    each fed (λ item. states item "name" (profile_of author))
    states feed "minTime" (num (nat 99))
    states feed "offset" (num (nat 1))
    unliked ← query user_token ("/blog/likes/" <> show empty) 200
    states unliked "data" (arr nil)
    check
        "content user reader: database author vs session display, three roles, anonymous hot, Feed enrichment, ordered top-five without refill, disabled and missing users, numeric DTO whitelist"
    pure (record {
      token = user_token;
      users = users_before;
      posts = posts_before;
      liked = liked_before;
      feed = feed_before;
    })

  abbrev fails : String → String → Exec (Unit {0})
  fails token route = do result ← query token route 500; is_same result internal_error

  abbrev profile_faults : Before → Exec (Unit {0})
  profile_faults before = do
    column_renamed "tb_user" "phone" "phase7z_owned_phone_fault" (do
      fails before.token ("/blog/" <> show post)
      fails before.token ("/blog/likes/" <> show post)
      fails before.token "/blog/of/follow?lastId=100&offset=0"
      unliked ← query before.token ("/blog/likes/" <> show empty) 200
      states unliked "data" (arr nil))
    do_redis ("ZADD" ∷ liked_key ∷ "0" ∷ "synthetic-not-a-long" ∷ [])
    finally (fails before.token ("/blog/likes/" <> show post))
        (do_redis ("ZREM" ∷ liked_key ∷ "synthetic-not-a-long" ∷ []))
    do_sql (
        "INSERT INTO tb_blog(id,user_id,title,images,content,liked,comments,withdrawn) VALUES("
        <> show orphan
        <> ","
        <> show missing
        <> ",'synthetic-orphan','', 'body',0,0,0);")
    finally (fails before.token ("/blog/" <> show orphan))
        (do_sql ("DELETE FROM tb_blog WHERE id=" <> show orphan <> ";"))
    has_likers before.token
    result ← query before.token ("/blog/" <> show post) 200
    item ← at result "data"
    states item "name" (profile_of author)
    gives (sql users_sql) before.users
    gives (sql posts_sql) before.posts
    gives (projection liked_key) before.liked
    gives (projection feed_key) before.feed
    check
        "content profile faults: SQL failures and malformed like members stay generic, empty likes skip user SELECT, missing author remains failure, recovery preserves facts and Redis projections"

  unfoldable pub verify_blog_user_reader : Exec (Unit {0})
  verify_blog_user_reader = do before ← enrichment; profile_faults before
