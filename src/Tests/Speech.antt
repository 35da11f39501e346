-- ===== src/Tests/Speech.antt =====
-- A text of three sentences, the last longer than the limit.
use content_fabric.Base.{◌≡◌, refl, [], ◌∷◌, arith, All}
use content_fabric.Text.{Text, text}
use content_fabric.Text.Strip.{letters}
use content_fabric.Speech.{split_from, slices, add_sentences, chunk_text}
use content_fabric.Speech.Content.{spoken}
use content_fabric.Speech.Laws.{IsChunk, chunk_text_lem}
use content_fabric.Text.Decimal.{lstrip, strip}

abbrev a_text : Text
a_text = text "Hi!\n  Go on. Unfathomable"

chunks_of_text : chunk_text 10 a_text ≡ text "Hi! Go on." ∷ text "Unfathomab" ∷ text "le" ∷ []
unfolding chunk_text add_sentences split_from slices strip lstrip
chunks_of_text = refl

chunk_text_example :
    All (IsChunk 10) (chunk_text 10 a_text) × (spoken (chunk_text 10 a_text) ≡ letters a_text)
chunk_text_example = chunk_text_lem 10 a_text (omega arith)
