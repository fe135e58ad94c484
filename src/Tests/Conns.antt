-- ===== src/Tests/Conns.antt =====
-- Examples for Conn and Response.
use libcddb.Net.Timeouts.{refused, timed_out, in_progress, writable}
use libcddb.Base.{
  or_empty, ◌≢◌, ◌+◌, ◌≡◌, ◌⊎◌, ◌↔◌, refl, arith, true, false, none, some, [], length, pos, codes,
  fault, inl, inr,
}
use libcddb.Errors.{ok, unexpected_eof}
use libcddb.Response.{get_response_code}
use libcddb.Response.Codes.{get_response_code-answer}
use libcddb.Conn.{Conn, conn_new, opened}
use libcddb.Conn.Credentials.{make_auth, make_auth_faults}
use libcddb.Conn.Email.{set_email_address}
use libcddb.Conn.Connect.{Network, Server}
use libcddb.Site.{Site, site_new, unknown, http, cddbp}
use libcddb.Format.{decimal, decimal_digits}
use libcddb.Site.Parse.{SiteMatch, AreWords, site_parse, site_parse-site_line}
use libcddb.Conn.UseSite.{set_site, set_site_faults}

get_response_code-answer_example :
    get_response_code unexpected_eof (some (codes "210 go on"))
    ≡ record { errno = ok; code = pos 210; msg = codes "go on" }
get_response_code-answer_example =
    get_response_code-answer unexpected_eof b'2' (codes "10") (codes "go on")
      (refl, (refl, (refl, tt))) (omega arith)

abbrev new : Conn
new = record (conn_new (codes "client") (codes "1") (codes "/home")) { errnum = ok }

make_auth_faults_example :
    (make_auth none (some []) ≡ fault) ↔ (length (or_empty none) + length (or_empty (some [])) ≡ 0)
make_auth_faults_example = make_auth_faults none (some []) (omega arith, tt)

abbrev with_charset : Conn
with_charset = record new { cd_to_freedb = opened 1; cd_from_freedb = opened 2 }

accepted : (set_email_address new (some (codes "me@host"))).1 ≡ true
unfolding set_email_address conn_new
accepted = refl

abbrev silent : Server
silent = record { banner = none; hello = none; proto = none }

-- A network in which no host accepts a connection, and one in which each does.
abbrev deaf : Network
deaf = record {
  resolves = λ name. true;
  new_socket = some 5;
  peer = λ name port. record {
    nonblocking = false;
    attempt = refused;
    ready = timed_out;
    so_error = 0;
  };
  server = silent;
}

abbrev open_net : Network
open_net = record deaf {
  peer = λ name port. record {
    nonblocking = true;
    attempt = in_progress;
    ready = writable;
    so_error = 0;
  };
}

abbrev by_http : Conn
by_http = record new { is_http_enabled = true }

-- A site for HTTP with an address and no query path.
abbrev no_path : Site
no_path = record site_new { address = some (codes "host"); protocol = http }

set_site_faults_example : (set_site new (some no_path) ≡ fault) ↔ (
    (no_path.protocol ≢ unknown)
    × ((no_path.address ≡ none) ⊎ ((no_path.protocol ≡ http) × (no_path.query_path ≡ none))))
set_site_faults_example = set_site_faults new no_path

abbrev freedb : SiteMatch
freedb = record {
  address = codes "freedb.freedb.org";
  protocol = codes "cddbp";
  port = codes "8880";
  query_path = codes "-";
  ns = b'N';
  latitude = codes "000.00";
  ew = b'W';
  longitude = codes "000.00";
  desc = codes "Random freedb server";
}

freedb-AreWords : AreWords freedb
freedb-AreWords = record {
  address = (omega arith, ground arith);
  protocol = (omega arith, ground arith);
  port = (omega arith, ground arith);
  query_path = (omega arith, ground arith);
  latitude = (omega arith, ground arith);
  longitude = (omega arith, ground arith);
}

site_parse-site_line_example :
    site_parse site_new
      (codes "freedb.freedb.org cddbp 8880 - N000.00 W000.00 Random freedb server")
    ≡ some (record site_new {
      address = some (codes "freedb.freedb.org");
      protocol = cddbp;
      port = pos 8880;
      query_path = some (codes "-");
      desc = some (codes "Random freedb server");
      latitude = record { negative = false; digits = codes "000.00" };
      longitude = record { negative = true; digits = codes "000.00" };
    })
unfolding decimal decimal_digits
site_parse-site_line_example =
    site_parse-site_line site_new freedb cddbp 8880
      (record { negative = false; digits = codes "000.00" })
      (record { negative = true; digits = codes "000.00" }) freedb-AreWords refl refl (omega arith)
      (refl, inl (refl, refl)) (refl, inr (refl, refl))
