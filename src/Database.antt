-- ===== src/Database.antt =====
-- server/func_db.c: `db_query` over the MySQL client library, which is a parameter.
pub mod Laws
use cloud_sys.Base.{
  ℕ, ◌+◌, Bool, true, false, ◌&&◌, ◌||◌, List, [], ◌∷◌, map, Option, none, some, leb, ◌==◌,
  if◌then◌else◌, take,
}
use cloud_sys.CString.{Bytes, text, bytes_eq, skip_space, is_space}

-- A field is `none` where the library returns a NULL pointer for it.
abbrev pub Row : Type 0
Row = List (Option Bytes)

-- The calls of libmysqlclient that the server makes, over the state of its connection.
pub record Mysql : Type 1 where
  pub Db : Type 0
  -- `mysql_query`: whether it returned 0.
  pub run : Bytes → Db → Bool × Db
  -- `mysql_store_result`: `none` is NULL.
  pub store_result : Db → Option (List Row) × Db
  -- `mysql_affected_rows`: `none` is (my_ulonglong)-1.
  pub affected_rows : Db → Option ℕ
  -- `mysql_real_escape_string`.
  pub escape : Bytes → Bytes
  -- `mysql_ping`: whether it returned 0.
  pub ping : Db → Bool

-- What `db_query` returns and writes through `result`: ERR_DB, or SUCCESS with a result set or
-- with a number of rows.
pub data Reply : Type 0 where
  failure : Reply
  rows : List Row → Reply
  affected : ℕ → Reply

-- The bytes that `sscanf("%s")` reads: those before the next white space.
word : Bytes → Bytes
word [] = []
word (b ∷ bs) = let rest = b ∷ word bs in if is_space b then [] else rest

tolower : ℕ → ℕ
tolower b = if leb b'A' b && leb b b'Z' then b + 32 else b

pub first_word : Bytes → Bytes
unfolding word tolower skip_space
first_word sql = map tolower (take 15 (word (skip_space sql)))

pub data Kind : Type 0 where
  select update other : Kind

unfoldable pub kind_of : Bytes → Kind
unfolding first_word text
kind_of sql =
    let w = first_word sql in
    if bytes_eq w (text "select")
    then select
    else if bytes_eq w (text "insert") || (bytes_eq w (text "update") || bytes_eq w (text "delete"))
    then update
    else other

fetched : {Db : Type 0} → Option (List Row) × Db → Reply × Db
fetched (none, d) = (failure, d)
fetched (some rs, d) = (rows rs, d)

counted : Option ℕ → Reply
counted none = failure
counted (some n) = affected n

module _ (m : Mysql) where
  open m use {Db, run, store_result, affected_rows}

  answer : Kind → Db → Reply × Db
  unfolding fetched counted
  answer select d = fetched (store_result d)
  answer update d = (counted (affected_rows d), d)
  answer other d = (failure, d)

  unfoldable pub db_query : Bytes → Db → Reply × Db
  unfolding answer
  db_query sql d =
      let (sent, d') = run sql d in if sent then answer (kind_of sql) d' else (failure, d')
