-- ===== src/Site.antt =====
-- lib/cddb_site.c and the types of include/cddb/cddb_site.h. A site pointer that may be NULL is an `Option Site`.
pub mod Parse
use libcddb.Base.{
  false, Bytes, codes, ℕ, to_int, to_u32, Bool, true, Option, none, some, ℤ, pos, CString,
}
use libcddb.Charset.{Iconv, conversion, convert_field}
use libcddb.Errors.{ErrorCode, ok, invalid_input}

pub data Protocol : Type 0 where
  unknown cddbp http : Protocol

-- A float that strtod made of a text, and its negation; the rounding is left to strtod.
pub record Degrees : Type 0 where
  pub negative : Bool
  pub digits : Bytes

pub record Site : Type 0 where
  pub address : CString
  pub protocol : Protocol
  pub port : ℤ
  pub query_path : CString
  pub submit_path : CString
  pub desc : CString
  pub latitude : Degrees
  pub longitude : Degrees

abbrev pub zero_degrees : Degrees
zero_degrees = record { negative = false; digits = codes "0" }

-- `calloc`
abbrev pub site_new : Site
site_new = record {
  address = none;
  protocol = unknown;
  port = pos 0;
  query_path = none;
  submit_path = none;
  desc = none;
  latitude = zero_degrees;
  longitude = zero_degrees;
}

site_clone : Site → Site
site_clone site = record {
  address = site.address;
  protocol = site.protocol;
  port = site.port;
  query_path = site.query_path;
  submit_path = site.submit_path;
  desc = site.desc;
  latitude = site.latitude;
  longitude = site.longitude;
}

unfoldable pub site_iconv : Iconv → Site → Site × Bool
site_iconv none site = (site, true)
site_iconv (some cd) site =
    convert_field (conversion cd) site.desc (λ s. record site { desc = s }) site
      λ site. (site, true)

-- The result of a getter: the error, and what it stores behind its pointers if there is none.
unfoldable pub get_address : Option Site → ErrorCode × Option (CString × ℕ)
get_address none = (invalid_input, none)
get_address (some site) = (ok, some (site.address, to_u32 site.port))

set_address : Option Site → CString → ℕ → ErrorCode × Option Site
set_address none address port = (invalid_input, none)
set_address (some site) none port = (invalid_input, some site)
set_address (some site) (some address) port =
    (ok, some (record site { address = some address; port = to_int port }))

get_location : Option Site → ErrorCode × Option (Degrees × Degrees)
get_location none = (invalid_input, none)
get_location (some site) = (ok, some (site.latitude, site.longitude))

unfoldable pub get_protocol : Option Site → Protocol
get_protocol (some site) = site.protocol
get_protocol none = unknown

set_protocol : Option Site → Protocol → ErrorCode × Option Site
set_protocol none proto = (invalid_input, none)
set_protocol (some site) proto = (ok, some (record site { protocol = proto }))

unfoldable pub get_query_path : Option Site → ErrorCode × Option CString
get_query_path none = (invalid_input, none)
get_query_path (some site) = (ok, some site.query_path)

set_query_path : Option Site → CString → ErrorCode × Option Site
set_query_path none path = (invalid_input, none)
set_query_path (some site) path = (ok, some (record site { query_path = path }))

get_submit_path : Option Site → ErrorCode × Option CString
get_submit_path none = (invalid_input, none)
get_submit_path (some site) = (ok, some site.submit_path)

set_submit_path : Option Site → CString → ErrorCode × Option Site
set_submit_path none path = (invalid_input, none)
set_submit_path (some site) path = (ok, some (record site { submit_path = path }))

get_description : Option Site → ErrorCode × Option CString
get_description none = (invalid_input, none)
get_description (some site) = (ok, some site.desc)

set_description : Option Site → CString → ErrorCode × Option Site
set_description none desc = (invalid_input, none)
set_description (some site) desc = (ok, some (record site { desc = desc }))
