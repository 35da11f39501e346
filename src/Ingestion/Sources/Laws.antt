-- ===== src/Ingestion/Sources/Laws.antt =====
-- Every cover is at an absolute URL.
use content_fabric.Base.{
  ◌≡◌, refl, true, Option, none, some, List, [], ◌∷◌, ◌++◌, Bool-cases, inl, inr,
}
use content_fabric.Text.{Text, text, text_eq}
use content_fabric.Ingestion.Xfields.{Xfields}
use content_fabric.Ingestion.Sources.{
  Cover, is_url, lstrip_slash, imgurl, xf, cover_below, bazaknig_at, club_books_at, cover_by,
  cover_builders, build_cover_url, cdn_redirectto, cdn_my_library, cover_audiokniga_one_com,
  cover_bazaknig_net, cover_club_books_ru, cover_books_online_info, cover_slushat_knigi_com,
}

-- no cover, or one at a URL
abbrev pub IsAbsolute : Cover → Type 0
IsAbsolute none = Unit
IsAbsolute (some (url, referer)) = is_url url ≡ true

https : (s : Text) → is_url (text "https://" ++ s) ≡ true
unfolding is_url
https s = refl

cover_below-IsAbsolute :
    (host referer : Text) (cover : Option Text)
    → IsAbsolute (cover_below (text "https://" ++ host) referer cover)
cover_below-IsAbsolute host referer none = tt
cover_below-IsAbsolute host referer (some cover) = elim (Bool-cases (is_url cover)) [
  | inl url ↦ rw url url
  | inr path ↦ rw path (https (host ++ (b'/' ∷ lstrip_slash cover)))
]

bazaknig_at-IsAbsolute : (info_id cover : Option Text) → IsAbsolute (bazaknig_at info_id cover)
bazaknig_at-IsAbsolute none cover = tt
bazaknig_at-IsAbsolute (some info_id) none = tt
bazaknig_at-IsAbsolute (some info_id) (some cover) =
    https (text "vvoqhuz9dcid9zx9.redirectto.cc/s01/" ++ (imgurl info_id ++ cover))

club_books_at-IsAbsolute : (tr_id : Option Text) → IsAbsolute (club_books_at tr_id)
club_books_at-IsAbsolute none = tt
club_books_at-IsAbsolute (some tr_id) =
    https (text "vvoqhuz9dcid9zx9.redirectto.cc/s20/" ++ (imgurl tr_id ++ (tr_id ++ text ".jpg")))

audiokniga-IsAbsolute : (fields : Xfields) → IsAbsolute (cover_audiokniga_one_com fields)
unfolding cover_audiokniga_one_com
audiokniga-IsAbsolute fields =
    cover_below-IsAbsolute (text "vvoqhuz9dcid9zx9.redirectto.cc") cdn_redirectto
      (xf fields (text "cover" ∷ text "wallpaper" ∷ []))

bazaknig-IsAbsolute : (fields : Xfields) → IsAbsolute (cover_bazaknig_net fields)
unfolding cover_bazaknig_net
bazaknig-IsAbsolute fields =
    bazaknig_at-IsAbsolute (xf fields (text "baza_knig_info_id" ∷ []))
      (xf fields (text "cover" ∷ []))

club_books-IsAbsolute : (fields : Xfields) → IsAbsolute (cover_club_books_ru fields)
unfolding cover_club_books_ru
club_books-IsAbsolute fields = club_books_at-IsAbsolute (xf fields (text "tr_id" ∷ []))

books_online-IsAbsolute : (fields : Xfields) → IsAbsolute (cover_books_online_info fields)
unfolding cover_books_online_info
books_online-IsAbsolute fields =
    cover_below-IsAbsolute (text "cdn.my-library.info") cdn_my_library
      (xf fields (text "wallpaper" ∷ text "cover" ∷ []))

slushat-IsAbsolute : (fields : Xfields) → IsAbsolute (cover_slushat_knigi_com fields)
unfolding cover_slushat_knigi_com
slushat-IsAbsolute fields =
    cover_below-IsAbsolute (text "slushat-knigi.com/uploads/posts")
      (text "https://slushat-knigi.com/") (xf fields (text "cover" ∷ text "wallpaper" ∷ []))

abbrev BuildsAbsolute : List (Text × (Xfields → Cover)) → Type 0
BuildsAbsolute [] = Unit
BuildsAbsolute ((name, builder) ∷ builders) =
    ((fields : Xfields) → IsAbsolute (builder fields)) × BuildsAbsolute builders

cover_by-IsAbsolute :
    (builders : List (Text × (Xfields → Cover))) (slug : Text) (fields : Xfields)
    → BuildsAbsolute builders
    → IsAbsolute (cover_by builders slug fields)
cover_by-IsAbsolute [] slug fields h = tt
cover_by-IsAbsolute ((name, builder) ∷ builders) slug fields h =
    elim (Bool-cases (text_eq name slug)) [
      | inl same ↦ rw same (h.0 fields)
      | inr other ↦ rw other (cover_by-IsAbsolute builders slug fields h.1)
    ]

-- Whatever the source and the fields of the post, the cover has a URL with http:// or https://, or
-- there is none.
pub build_cover_url-IsAbsolute :
    (slug : Text) (fields : Xfields) → IsAbsolute (build_cover_url slug fields)
unfolding build_cover_url
build_cover_url-IsAbsolute slug fields = cover_by-IsAbsolute cover_builders slug fields (
  audiokniga-IsAbsolute,
  (
    audiokniga-IsAbsolute,
    (
      bazaknig-IsAbsolute,
      (
        club_books-IsAbsolute,
        (club_books-IsAbsolute, (books_online-IsAbsolute, (slushat-IsAbsolute, tt))),
      ),
    ),
  ),
)
