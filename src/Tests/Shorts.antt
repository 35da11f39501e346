-- ===== src/Tests/Shorts.antt =====
-- A shorts job over three highlights, of which one cannot be cut and the last has no title.
use content_fabric.Base.{◌+◌, ◌==◌, ◌≡◌, refl, true, not, Option, none, some, List, [], ◌∷◌, arith}
use content_fabric.Text.{Text, text}
use content_fabric.Json.{get_field, cons, nil, obj, field, end, num, str, arr}
use content_fabric.Queue.{ShortsPayload}
use content_fabric.Youtube.{returned}
use content_fabric.Workers.{Site}
use content_fabric.Workers.Shorts.{Highlight, ShortsTools, run_shorts_job, find_highlights}
use content_fabric.Workers.Shorts.Laws.{EndsShorts, run_shorts_job-EndsShorts}
use content_fabric.Tests.Data.{a_db}

abbrev some_tools : ShortsTools
some_tools = record {
  download_video = returned true;
  transcribe = returned true;
  cut_segment = λ i start stop. returned (not (i == 1));
  pick_thumbnail = λ i. returned none;
  uuid = λ id. text "u";
  now = λ i. 1000 + i;
  tmp_dir = text "/tmp/shorts_u";
}

abbrev titled : Option Text → Highlight
titled title = record { start = some 10; stop = some 40; title = title; reason = none }

abbrev some_highlights : List Highlight
some_highlights = titled (some (text "One")) ∷ titled (some (text "Two")) ∷ titled none ∷ []

abbrev a_donor : ShortsPayload
a_donor = record {
  shorts_channel_id = 7;
  donor_video_url = some (text "https://a/v");
  highlights = 3;
}

abbrev a_shorts_site : Site
a_shorts_site = record { db = a_db; alerts = [] }

-- one object in place of a list
found_in_object :
    find_highlights true (returned (obj (field (text "start") (num 3) end))) 5
    ≡ obj (field (text "start") (num 3) end) ∷ []
unfolding find_highlights get_field
found_in_object = refl

found_under_key :
    find_highlights true
      (returned (
        obj (
          field
            (text "note")
            (str (text "x"))
            (field (text "clips") (arr (cons (num 1) (cons (num 2) nil))) end))))
      1
    ≡ num 1 ∷ []
unfolding find_highlights get_field
found_under_key = refl

run_shorts_job-EndsShorts_example :
    EndsShorts some_tools a_donor some_highlights a_shorts_site
      (run_shorts_job some_tools a_donor some_highlights a_shorts_site)
run_shorts_job-EndsShorts_example =
    run_shorts_job-EndsShorts some_tools a_donor some_highlights a_shorts_site (omega arith)
