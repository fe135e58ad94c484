-- ===== src/Site/Parse.antt =====
-- cddb_site_parse of lib/cddb_site.c with REGEX_SITE of lib/cddb_regex.c, in the C locale.
use libcddb.Base.{
  false, pos, ap, sym, subst, arith, ◌≢◌, ◌⊎◌, inl, inr, ◌^◌, str_eq_iff, ℕ, ◌<◌, ◌≡◌, refl, ◌∙◌,
  leb, ◌==◌, ◌||◌, ◌&&◌, if◌then◌else◌, Bool, true, length, Option, none, some, [], ◌∷◌, ◌++◌,
  Bytes, codes, str_eq,
}
use libcddb.Regex.{is_digit, get_int}
use libcddb.Regex.Words.{is_alpha, span, word_then, All, word_then-span}
use libcddb.Format.{decimal}
use libcddb.Format.Decimal.{get_int-decimal}
use libcddb.Site.{Site, Degrees, Protocol, unknown, cddbp, http}

-- `[[:graph:]]` and `[0-9.]`
abbrev pub is_graph : ℕ → Bool
is_graph c = leb b'!' c && leb c b'~'

abbrev pub is_decimal : ℕ → Bool
is_decimal c = is_digit c || c == b'.'

-- `([NS])([0-9.]+)[[:blank:]]` and the like.
abbrev pub coordinate {ℓ} : {A : Type ℓ} → ℕ → ℕ → Bytes → (ℕ → Bytes → Bytes → Option A) → Option A
coordinate a b [] f = none
coordinate a b (c ∷ s) f = if c == a || c == b then word_then (span is_decimal s) (f c) else none

pub record SiteMatch : Type 0 where
  pub address : Bytes
  pub protocol : Bytes
  pub port : Bytes
  pub query_path : Bytes
  pub ns : ℕ
  pub latitude : Bytes
  pub ew : ℕ
  pub longitude : Bytes
  pub desc : Bytes

-- REGEX_SITE
unfoldable pub site_match : Bytes → Option SiteMatch
site_match line = word_then (span is_graph line) λ address s.
    word_then (span is_alpha s) λ protocol s. word_then (span is_digit s) λ port s.
      word_then (span is_graph s) λ query_path s. coordinate b'N' b'S' s λ ns latitude s.
        coordinate b'E' b'W' s λ ew longitude s. some (record {
          address = address;
          protocol = protocol;
          port = port;
          query_path = query_path;
          ns = ns;
          latitude = latitude;
          ew = ew;
          longitude = longitude;
          desc = s;
        })

unfoldable pub protocol_of : Bytes → Protocol
protocol_of s =
    if str_eq s (codes "cddbp") then cddbp else if str_eq s (codes "http") then http else unknown

-- The pattern leaves no third letter.
abbrev pub degrees : ℕ → ℕ → Bytes → Degrees
degrees below c digits = record { negative = c == below; digits = digits }

unfoldable pub parsed_site : Site → SiteMatch → Site
parsed_site site m = record site {
  address = some m.address;
  protocol = protocol_of m.protocol;
  port = get_int m.port;
  query_path = some m.query_path;
  desc = some m.desc;
  latitude = degrees b'S' m.ns m.latitude;
  longitude = degrees b'W' m.ew m.longitude;
}

-- `none` for FALSE, which leaves the site as it was.
unfoldable pub site_parse : Site → Bytes → Option Site
site_parse site line = elim (site_match line) [ none ↦ none | some m ↦ some (parsed_site site m) ]

-- One or more bytes that pass a test.
abbrev pub IsWord : (ℕ → Bool) → Bytes → Type 0
IsWord p s = (0 < length s) × All p s

-- The line that describes a site.
abbrev pub site_line : SiteMatch → Bytes
site_line m =
    m.address
    ++ b' '
      ∷ (m.protocol
          ++ b' '
            ∷ (m.port
                ++ b' '
                  ∷ (m.query_path
                      ++ b' '
                        ∷ m.ns
                        ∷ (m.latitude ++ b' ' ∷ m.ew ∷ (m.longitude ++ b' ' ∷ m.desc)))))

pub record AreWords (m : SiteMatch) : Type 0 where
  pub address : IsWord is_graph m.address
  pub protocol : IsWord is_alpha m.protocol
  pub port : IsWord is_digit m.port
  pub query_path : IsWord is_graph m.query_path
  pub latitude : IsWord is_decimal m.latitude
  pub longitude : IsWord is_decimal m.longitude

coordinate-span {ℓ} :
    {A : Type ℓ} (a b c : ℕ) (s rest : Bytes) (f : ℕ → Bytes → Bytes → Option A)
    → (c == a || c == b) ≡ true
    → IsWord is_decimal s
    → coordinate a b (c ∷ (s ++ b' ' ∷ rest)) f ≡ f c s rest
coordinate-span a b c s rest f side (some_byte, all) =
    rw side (word_then-span is_decimal s rest (f c) some_byte all refl)

site_match-site_line :
    (m : SiteMatch)
    → (m.ns == b'N' || m.ns == b'S') ≡ true
    → (m.ew == b'E' || m.ew == b'W') ≡ true
    → AreWords m
    → site_match (site_line m) ≡ some m
unfolding site_match
site_match-site_line m ns_ok ew_ok w =
    word_then-span is_graph m.address _ _ w.address.0 w.address.1 refl
    ∙ word_then-span is_alpha m.protocol _ _ w.protocol.0 w.protocol.1 refl
    ∙ word_then-span is_digit m.port _ _ w.port.0 w.port.1 refl
    ∙ word_then-span is_graph m.query_path _ _ w.query_path.0 w.query_path.1 refl
    ∙ coordinate-span b'N' b'S' m.ns m.latitude _
        (λ ns latitude s. coordinate b'E' b'W' s λ ew longitude s.
          some
            (record m { ns = ns; latitude = latitude; ew = ew; longitude = longitude; desc = s }))
        ns_ok w.latitude
    ∙ coordinate-span b'E' b'W' m.ew m.longitude m.desc
        (λ ew longitude s. some (record m { ew = ew; longitude = longitude; desc = s })) ew_ok
        w.longitude

-- The protocol that a word names.
abbrev pub Names : Bytes → Protocol → Type 0
Names s cddbp = s ≡ codes "cddbp"
Names s http = s ≡ codes "http"
Names s unknown = (s ≢ codes "cddbp") × (s ≢ codes "http")

protocol_of-Names : (s : Bytes) (p : Protocol) → Names s p → protocol_of s ≡ p
unfolding protocol_of str_eq
protocol_of-Names s cddbp h = rw h refl
protocol_of-Names s http h = rw h refl
protocol_of-Names s unknown (c, h) =
    let not_cddbp : str_eq s (codes "cddbp") ≡ false =
      ground (arith, str_eq_iff s (codes "cddbp")) in
    let not_http : str_eq s (codes "http") ≡ false = ground (arith, str_eq_iff s (codes "http")) in
    rw (protocol_of, not_cddbp, not_http) refl

-- The location that a letter and a number say: south and west are negative.
abbrev pub Lies : ℕ → ℕ → ℕ → Bytes → Degrees → Type 0
Lies above below c digits d =
    (d.digits ≡ digits)
    × (((c ≡ above) × (d.negative ≡ false)) ⊎ ((c ≡ below) × (d.negative ≡ true)))

degrees-Lies :
    (above below c : ℕ) (digits : Bytes) (d : Degrees)
    → above ≢ below
    → Lies above below c digits d
    → degrees below c digits ≡ d
degrees-Lies above below c digits d other (e, inl (side, n)) =
    let no : (c == below) ≡ false = ground (arith, side, other) in
    subst (λ (x : Degrees). degrees below c digits ≡ x)
      (ap (λ b. record { negative = b; digits = digits }) (sym n)
        ∙ ap (λ s. record { negative = d.negative; digits = s }) (sym e))
      (ap (λ b. record { negative = b; digits = digits }) no)
degrees-Lies above below c digits d other (e, inr (side, n)) =
    let yes : (c == below) ≡ true = ground (arith, side) in
    subst (λ (x : Degrees). degrees below c digits ≡ x)
      (ap (λ b. record { negative = b; digits = digits }) (sym n)
        ∙ ap (λ s. record { negative = d.negative; digits = s }) (sym e))
      (ap (λ b. record { negative = b; digits = digits }) yes)

-- A line with address, protocol, port in decimal digits below 2^31, path, location and
-- description, all but the last one word, is read into the site with these texts, the protocol that
-- the word names, this port and this location; the rest of the site is left as it was.
pub site_parse-site_line :
    (site : Site) (m : SiteMatch) (protocol : Protocol) (port : ℕ) (latitude longitude : Degrees)
    → AreWords m
    → Names m.protocol protocol
    → m.port ≡ decimal port
    → port < 2 ^ 31
    → Lies b'N' b'S' m.ns m.latitude latitude
    → Lies b'E' b'W' m.ew m.longitude longitude
    → site_parse site (site_line m)
      ≡ some (record site {
        address = some m.address;
        protocol = protocol;
        port = pos port;
        query_path = some m.query_path;
        desc = some m.desc;
        latitude = latitude;
        longitude = longitude;
      })
unfolding parsed_site site_parse
site_parse-site_line site m protocol port latitude longitude w named digits small north east =
    let ns_ok : (m.ns == b'N' || m.ns == b'S') ≡ true = ground (arith, north.1) in
    let ew_ok : (m.ew == b'E' || m.ew == b'W') ≡ true = ground (arith, east.1) in
    let is_north : degrees b'S' m.ns m.latitude ≡ latitude =
      degrees-Lies b'N' b'S' m.ns m.latitude latitude (ground arith) north in
    let is_east : degrees b'W' m.ew m.longitude ≡ longitude =
      degrees-Lies b'E' b'W' m.ew m.longitude longitude (ground arith) east in
    let number : get_int m.port ≡ pos port = ap get_int digits ∙ get_int-decimal port small in
    rw
      (
        site_parse,
        site_match-site_line m ns_ok ew_ok w,
        protocol_of-Names m.protocol protocol named,
        number,
        is_north,
        is_east,
      )
      refl
