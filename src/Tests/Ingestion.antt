-- ===== src/Tests/Ingestion.antt =====
-- Two posts of a source, taken twice.
use content_fabric.Base.{
  ℕ, ◌≤◌, ◌≡◌, refl, true, false, Bool, Option, none, some, List, [], ◌∷◌, arith, ◌==◌, ==_refl,
  not, All, All-imp, all_of, All-all_of,
}
use content_fabric.Text.{Text, text, text_eq}
use content_fabric.Text.Decimal.{strip, lstrip}
use content_fabric.Json.{end}
use content_fabric.Tasks.Insert.{create_task}
use content_fabric.Ingestion.Xfields.{Xfields, parse_xfields, get}
use content_fabric.Ingestion.Xfields.Laws.{written, IsField, HasDistinctKeys, parse_xfields-written}
use content_fabric.Ingestion.Client.{DleRow, Post, fetch_recent_posts}
use content_fabric.Ingestion.Pipeline.{
  Ingest, IngestSite, run, ingest_posts, ingest_post, is_already_processed, get_task_by_dle_id,
  slug_to_host, post_url,
}
use content_fabric.Ingestion.Pipeline.Laws.{Grows}
use content_fabric.Ingestion.Pipeline.Written.{IsSlug, is_slug_char}
use content_fabric.Ingestion.Pipeline.Runs.{
  at_later, run-Grows, run-once, ingest_posts-skips_prefix, IsSkipped,
}
use content_fabric.Ingestion.Sources.{build_cover_url, xf, imgurl, cover_club_books_ru}
use content_fabric.Ingestion.Sources.Laws.{IsAbsolute, build_cover_url-IsAbsolute}
use content_fabric.Tests.Data.{a_db}

abbrev two_fields : Xfields
two_fields = (text "namebook", text "War") ∷ (text "tr_id", text "41") ∷ []

no_bar : (s : Text) → all_of (λ c. not (c == b'|')) s ≡ true → All (λ c. (c == b'|') ≡ false) s
no_bar s h = All-imp (λ c e. not_true (c == b'|') e) s (All-all_of (λ c. not (c == b'|')) s h)
  where
    not_true : (b : Bool) → not b ≡ true → b ≡ false
    not_true true e = cc
    not_true false e = refl

name_IsField : IsField (text "namebook", text "War")
unfolding strip lstrip
name_IsField = record {
  key_bars = no_bar (text "namebook") refl;
  value_bars = no_bar (text "War") refl;
  value_ne_nil = λ e. cc;
  key_stripped = refl;
  value_stripped = refl;
}

id_IsField : IsField (text "tr_id", text "41")
unfolding strip lstrip
id_IsField = record {
  key_bars = no_bar (text "tr_id") refl;
  value_bars = no_bar (text "41") refl;
  value_ne_nil = λ e. cc;
  key_stripped = refl;
  value_stripped = refl;
}

distinct : HasDistinctKeys two_fields
unfolding text_eq
distinct = ((refl, tt), (tt, tt))

parse_xfields-written_example : parse_xfields (some (written two_fields)) ≡ two_fields
parse_xfields-written_example =
    parse_xfields-written two_fields (name_IsField, (id_IsField, tt)) distinct

build_cover_url-IsAbsolute_example : IsAbsolute (build_cover_url (text "club_books_ru") two_fields)
build_cover_url-IsAbsolute_example = build_cover_url-IsAbsolute (text "club_books_ru") two_fields

cover_of_fields :
    build_cover_url (text "club_books_ru") two_fields
    ≡ some (
      text "https://vvoqhuz9dcid9zx9.redirectto.cc/s20/4/1/41.jpg",
      text "https://vvoqhuz9dcid9zx9.redirectto.cc",
    )
unfolding build_cover_url cover_club_books_ru xf get imgurl text_eq
cover_of_fields = refl

host_of_slug : slug_to_host (text "audiokniga_one_com") ≡ text "audiokniga-one.com"
unfolding slug_to_host
host_of_slug = refl

abbrev an_ingest : Ingest
an_ingest = record {
  same = ◌==◌;
  redis = λ job. true;
  uuid = λ id. text "u";
  now = 100;
  trace_id = text "t";
  source_slug = text "bazaknig_net";
  channel_id = 7;
  media_type = text "video";
}

source-IsSlug : IsSlug (text "bazaknig_net")
source-IsSlug = All-all_of is_slug_char (text "bazaknig_net") refl

abbrev row_of : ℕ → DleRow
row_of id = record {
  id = id;
  title = text "War";
  xfields = some (text "tr_id|41");
  date = id;
  alt_name = text "war";
  book_id = none;
  approve = 1;
}

abbrev rows : Option (List DleRow)
rows = some (row_of 123 ∷ row_of 8 ∷ [])

abbrev a_site : IngestSite
a_site = record { db = a_db; queue = [] }

run-Grows_example :
    Grows an_ingest (0, a_site) (run an_ingest 2 rows a_site)
    × ((run an_ingest 2 rows a_site).0 ≤ 2)
run-Grows_example = run-Grows an_ingest 2 rows a_site (omega arith)

run-once_example :
    run (at_later 200 (text "v") an_ingest) 2 rows (run an_ingest 2 rows a_site).1
    ≡ (0, (run an_ingest 2 rows a_site).1)
run-once_example =
    run-once an_ingest ==_refl source-IsSlug 2 200 (text "v") rows a_site (omega arith)

-- both posts become tasks
two_made : (run an_ingest 2 rows a_site).0 ≡ 2
unfolding run ingest_posts ingest_post is_already_processed get_task_by_dle_id fetch_recent_posts
    create_task post_url strip
two_made = refl

abbrev post_of : ℕ → Post
post_of id = record {
  id = id;
  title = text "War";
  alt_name = text "war";
  book_id = none;
  xfields_parsed = [];
  normalized = end;
}

post_is_new : is_already_processed an_ingest 123 a_db ≡ false
unfolding is_already_processed get_task_by_dle_id
post_is_new = refl

-- post 12 after 123 and another one
ingest_posts-skips_prefix_example :
    IsSkipped an_ingest (post_of 12) (post_of 123 ∷ post_of 8 ∷ []) [] (0, a_site)
ingest_posts-skips_prefix_example =
    (ingest_posts-skips_prefix an_ingest ==_refl source-IsSlug (post_of 123) (post_of 12) 3
        (omega arith) (omega arith) (omega arith) (post_of 8 ∷ []) (0, a_site) (omega arith)
        post_is_new).0
      []
