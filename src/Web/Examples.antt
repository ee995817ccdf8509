-- ===== src/Web/Examples.antt =====
-- The theorems at small requests and disks.
use betaflight_sitl_udp.Base.{
  ℕ, map, ◌++◌, ◌≡◌, refl, false, List, [], some, none, arith, codes, length, starts_with,
  if◌then◌else◌, same_string, ap, min, sym, ◌∙◌,
}
use betaflight_sitl_udp.WsProxy.Frame.{Recv}
use betaflight_sitl_udp.Web.Request.{backslashed, scan_request, url_path, is_safe_path, full_path}
use betaflight_sitl_udp.Web.Request.Scanning.{scan_request_lem}
use betaflight_sitl_udp.Web.Response.{
  Files, respond, url_response, safe_response, path_response, file_response, page_response,
  same_ignoring_case, mime_for, lookup_type,
}
use betaflight_sitl_udp.Web.Response.Lengths.{IsAnnounced, IsPage, page_response_lem}
use betaflight_sitl_udp.Web.Response.Confinement.{
  AgreeBelow, url_response-confined, safe_response-outside,
}

-- Three bytes come at a time.
abbrev slow_recv : Recv
slow_recv want input = min 3 (min want (length input))

abbrev get_root : List ℕ
get_root = codes "GET / HTTP/1.1\r\n\r\n"

scan_request_lem_example :
    scan_request (codes "GET / HTTP/1.1\r\n\r\n") ≡ some (codes "GET", codes "/")
scan_request_lem_example =
    scan_request_lem b'G' (codes "ET") b'/' [] (codes "HTTP/1.1\r\n\r\n")
      (refl, λ e. omega arith, (refl, λ e. omega arith, (refl, λ e. omega arith, tt)))
      (refl, λ e. omega arith, tt) (omega arith) (omega arith)

abbrev local : List ℕ
local = codes "ws://127.0.0.1:6761"

-- A disk with a page and a style sheet below the root, and a secret beside it.
abbrev web_root : List ℕ
web_root = codes "C:\\www"

abbrev disk : List ℕ → Files
disk secret = record {
  read_file = λ path.
      if same_string path (codes "C:\\www\\a.css")
      then some (record { size = some 3; bytes = codes "b{}" })
      else (if starts_with (codes "C:\\www\\") path
          then none
          else some (record { size = some (length secret); bytes = secret }));
  is_directory = λ path. false;
}

abbrev get_style : List ℕ
get_style = codes "GET /a.css?v=1 HTTP/1.1\r\n\r\n"

style_served :
    respond (disk []) web_root local get_style
    ≡ some (record {
      status = 200;
      type = codes "text/css; charset=utf-8";
      content_length = 3;
      body = codes "b{}";
    })
unfolding respond scan_request url_response url_path is_safe_path full_path path_response
    file_response mime_for lookup_type same_ignoring_case
style_served = refl

page_response_lem_example :
    IsAnnounced (page_response local (codes "<html><head></head>"))
    × IsPage local (codes "<html><head></head>") (page_response local (codes "<html><head></head>"))
page_response_lem_example = page_response_lem local (codes "<html><head></head>")

-- The disks differ in the secret only, which is not below the root.
disks_agree : AgreeBelow web_root (disk (codes "one")) (disk (codes "two"))
disks_agree full (rest, whole, dots, colon, slash) =
    (ap (disk (codes "one")).read_file whole ∙ sym (ap (disk (codes "two")).read_file whole), refl)

url_response-confined_example :
    url_response (disk (codes "one")) web_root local (codes "GET") (codes "/2/secret")
    ≡ url_response (disk (codes "two")) web_root local (codes "GET") (codes "/2/secret")
url_response-confined_example =
    url_response-confined (disk (codes "one")) (disk (codes "two")) web_root local (codes "GET")
      (codes "2/secret") disks_agree

-- Without the slash in front the secret is served.
secret_served :
    respond (disk (codes "one")) web_root local (codes "GET 2/secret HTTP/1.1\r\n\r\n")
    ≡ some (record {
      status = 200;
      type = codes "application/octet-stream";
      content_length = 3;
      body = codes "one";
    })
unfolding respond scan_request url_response url_path is_safe_path full_path path_response
    file_response mime_for lookup_type same_ignoring_case
secret_served = refl

secret_path : full_path web_root (codes "2/secret") ≡ some (codes "C:\\www2\\secret")
unfolding full_path
secret_path = refl

safe_response-outside_example :
    (safe_response (disk (codes "one")) web_root local (codes "2/secret")
      ≡ some (
          file_response local
            (some (record { size = some 3; bytes = codes "one" }))
            (codes "C:\\www2\\secret")
            (codes "2/secret")))
    × (codes "C:\\www2\\secret" ≡ map backslashed (web_root ++ codes "2/secret"))
    × (starts_with (codes "C:\\www\\") (codes "C:\\www2\\secret") ≡ false)
safe_response-outside_example =
    safe_response-outside (disk (codes "one")) web_root local (codes "/secret")
      (codes "C:\\www2\\secret") b'2' (λ same. omega arith) (λ same. omega arith) refl refl
      secret_path refl
