-- ===== src/Ingestion/Client.antt =====
-- prod/shared/ingestion/dle/client.py: the posts of one DLE database. The rows stand for the
-- database, with none for a connection that fails; a table without the column `book_id` has none in
-- it.
use content_fabric.Base.{ℕ, Option, none, some, List, [], map, ◌==◌, take, drop, keep}
use content_fabric.Text.{Text}
use content_fabric.Json.{Fields}
use content_fabric.Table.{fetch_one, has_key}
use content_fabric.Table.Order.{order_by, descending}
use content_fabric.Ingestion.Xfields.{Xfields, parse_xfields, get_normalized_fields}

-- a row of `dle_post`
pub record DleRow : Type 0 where
  pub id : ℕ
  pub title : Text
  pub xfields : Option Text
  pub date : ℕ
  pub alt_name : Text
  pub book_id : Option ℕ
  pub approve : ℕ

pub record Post : Type 0 where
  pub id : ℕ
  pub title : Text
  pub alt_name : Text
  pub book_id : Option ℕ
  pub xfields_parsed : Xfields
  pub normalized : Fields

unfoldable pub read_post : DleRow → Post
unfolding parse_xfields get_normalized_fields
read_post row = record {
  id = row.id;
  title = row.title;
  alt_name = row.alt_name;
  book_id = row.book_id;
  xfields_parsed = parse_xfields row.xfields;
  normalized = get_normalized_fields (parse_xfields row.xfields);
}

unfoldable pub fetch_recent_posts : ℕ → ℕ → Option (List DleRow) → List Post
unfolding read_post
fetch_recent_posts limit offset none = []
fetch_recent_posts limit offset (some rows) = map read_post (
    take limit (
      drop offset
        (order_by (descending (λ r. r.date)) (keep (λ (r : DleRow). r.approve == 1) rows))))

abbrev pub map_post : Option DleRow → Option Post
map_post none = none
map_post (some row) = some (read_post row)

unfoldable pub get_post_by_id : ℕ → Option (List DleRow) → Option Post
unfolding read_post
get_post_by_id k none = none
get_post_by_id k (some rows) = map_post (fetch_one (has_key (λ (r : DleRow). r.id) k) rows)
