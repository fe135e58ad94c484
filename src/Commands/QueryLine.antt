-- ===== src/Commands/QueryLine.antt =====
-- A line of a result list, as a server writes it, read by cddb_parse_query_data of lib/cddb_cmd.c.
use libcddb.Base.{
  subst, ℕ, ◌^◌, ◌<◌, ◌≡◌, refl, arith, if◌then◌else◌, Bytes, ◌∷◌, ◌++◌, codes, some, none, length,
}
use libcddb.Errors.{ok, iconv_fail}
use libcddb.Charset.{Iconv}
use libcddb.Category.{Category, category_name}
use libcddb.Disc.{Disc}
use libcddb.Disc.Convert.{disc_iconv}
use libcddb.Disc.Fields.{set_category_str}
use libcddb.Format.Decimal.{length-print_hex}
use libcddb.Format.{print_hex}
use libcddb.Regex.{split_last, titles, both}
use libcddb.Category.Names.{IsNameOf, category_name-IsNameOf}
use libcddb.Regex.Hex.{hex_digits-All, get_hex-print_hex}
use libcddb.Regex.Words.{is_alpha, is_xdigit, All, span-append, word_then-some}
use libcddb.Regex.Split.{slash, split_last-append}
use libcddb.Commands.Results.{query_match, parse_query_data}

-- The line of a disc with this category, disc ID, artist and title.
abbrev pub query_line : Bytes → ℕ → Bytes → Bytes → Bytes
query_line category discid artist title =
    category ++ b' ' ∷ (print_hex discid ++ b' ' ∷ (artist ++ slash ++ title))

query_match-query_line :
    (category : Bytes) (discid : ℕ) (artist title : Bytes)
    → 0 < length category
    → All is_alpha category
    → split_last (codes "/ " ++ title) ≡ none
    → query_match (query_line category discid artist title)
      ≡ some (category, print_hex discid, both artist title)
unfolding query_match titles print_hex
query_match-query_line category discid artist title some_name alpha single =
    let text = artist ++ slash ++ title in
    rw
      (
        span-append is_alpha category b' ' (print_hex discid ++ b' ' ∷ text) alpha refl,
        word_then-some category (print_hex discid ++ b' ' ∷ text) b' ' _ some_name refl,
        span-append is_xdigit (print_hex discid) b' ' text (hex_digits-All 8 discid) refl,
        word_then-some (print_hex discid) text b' ' _ (omega (arith, length-print_hex discid)) refl,
        titles,
        split_last-append artist title single,
      )
      refl

-- A line with the name of a category, a disc ID below 2^32, an artist and a title without a
-- separator is read into the disc with that category, whose name is the genre, disc ID, artist and
-- title, which is then converted.
pub parse_query_data-query_line :
    (cd : Iconv) (disc : Disc) (c : Category) (name : Bytes) (discid : ℕ) (artist title : Bytes)
    → category_name c ≡ some name
    → discid < 2 ^ 32
    → split_last (codes "/ " ++ title) ≡ none
    → (line : Disc) × (line ≡ record disc {
      genre = some name;
      category = c;
      discid = discid;
      artist = some artist;
      title = some title;
    })
      × (parse_query_data cd disc (query_line name discid artist title)
          ≡ ((disc_iconv cd line).0, if (disc_iconv cd line).1 then ok else iconv_fail))
unfolding parse_query_data set_category_str
parse_query_data-query_line cd disc c name discid artist title e h single =
    let (some_name, alpha, finds) = subst (IsNameOf c) e (category_name-IsNameOf c) in
    (
      _,
      refl,
      rw
          (
            parse_query_data,
            query_match-query_line name discid artist title some_name alpha single,
            get_hex-print_hex discid h,
            finds,
          )
          refl,
    )
