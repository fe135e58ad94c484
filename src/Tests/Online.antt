-- ===== src/Tests/Online.antt =====
-- A submission over CDDBP.
use libcddb.Base.{
  unlines, wrap_int, Bool, str_eq, ltb→lt, ◌≡◌, refl, arith, none, some, [], ◌∷◌, ◌++◌, length, pos,
  codes, value, eq_ℤ, false, List, Bytes, to_int, ◌<◌,
}
use libcddb.Errors.{ok}
use libcddb.Cache.{cache_off}
use libcddb.Conn.{Conn, conn_new}
use libcddb.Category.{category_name}
use libcddb.Disc.Convert.{disc_iconv}
use libcddb.Format.{print_int, decimal, decimal_digits, print_hex, hex_digits}
use libcddb.Response.{get_response_code}
use libcddb.Submission.{written_genre}
use libcddb.Submission.Lines.{entry_lines}
use libcddb.Commands.{Session, nowhere}
use libcddb.Commands.Send.{write as write_command, command_text}
use libcddb.Commands.Read.{Outcome}
use libcddb.Commands.Write.{has_default_email, lacks_data, lacking_track, write}
use libcddb.Commands.Errno.{first_line}
use libcddb.Commands.Online.{write-sends}
use libcddb.Tests.Commands.{no_net, empty_store}
use libcddb.Tests.Submissions.{zeros, album, album-IsComplete, album-IsSized}

abbrev submitter : Conn
unfolding conn_new
submitter = record (conn_new (codes "app") (codes "1") (codes "/home/u")) {
  use_cache = cache_off;
  is_http_enabled = false;
  socket = some 5;
  user = codes "me";
  hostname = codes "home";
}

abbrev talking : Session
talking = record { conn = submitter; lines = []; output = []; query_data = []; it = nowhere }

abbrev later_lines : List Bytes
later_lines = codes "200 Ok" ∷ []

album_fits : length (unlines (entry_lines submitter album)) < length (zeros 400)
unfolding print_int decimal decimal_digits print_hex hex_digits written_genre submitter to_int
    category_name
album_fits = ltb→lt _ _ refl

write-sends_example :
    (o : Outcome Bool) × (write none no_net empty_store
        (λ category. false)
        (zeros 400)
        (record talking { lines = codes "320 Go on" ∷ later_lines })
        album
      ≡ value (o, none))
    × (o.session.output
        ≡ command_text (
            write_command
              (codes "rock")
              album.discid
              (length (unlines (entry_lines submitter album))))
          ++ codes "\n"
          ++ unlines (entry_lines submitter album)
          ++ codes ".\n")
    × (o.result ≡ eq_ℤ (get_response_code ok (first_line later_lines)).code (pos 200))
unfolding disc_iconv submitter has_default_email lacks_data lacking_track str_eq category_name
    command_text print_hex hex_digits get_response_code wrap_int
write-sends_example =
    write-sends none no_net empty_store (λ category. false) (zeros 400) talking album album
      (codes "rock") (codes "320 Go on") (codes "Go on") later_lines 5 refl refl refl refl refl refl
      refl album-IsComplete album-IsSized album_fits refl (ltb→lt _ _ refl) (omega arith) refl
