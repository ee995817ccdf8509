-- ===== src/Web/Response.antt =====
-- The response: `mimeFor`, `sendResponseHead`, `sendError`, `sendFile`, and `handleClient`.
pub mod Confinement
pub mod Lengths
use betaflight_sitl_udp.Base.{
  ℕ, zero, suc, ◌+◌, ◌-◌, ◌/◌, ◌%◌, ◌==◌, Bool, true, false, ◌&&◌, ◌||◌, not, List, [], ◌∷◌, ◌++◌,
  Option, none, some, ltb, leb, if◌then◌else◌, length, take, drop, map, codes, same_string, cut_at,
  has_text, starts_with,
}
use betaflight_sitl_udp.Web.Request.{
  scan_request, is_known_method, url_path, is_safe_path, full_path, with_index,
}

abbrev pub to_lower : ℕ → ℕ
to_lower c = if leb b'A' c && leb c b'Z' then c + 32 else c

-- `_stricmp(a, b) == 0`
unfoldable pub same_ignoring_case : List ℕ → List ℕ → Bool
same_ignoring_case a b = same_string (map to_lower a) (map to_lower b)

-- The text from the last dot on, as `strrchr` finds it.
abbrev pub extension : List ℕ → Option (List ℕ)
extension [] = none
extension (c ∷ s) = elim (extension s) [
  | some e ↦ some e
  | none ↦ if c == b'.' then some (c ∷ s) else none
]

abbrev pub octet_stream : List ℕ
octet_stream = codes "application/octet-stream"

-- The table of `mimeFor`.
abbrev pub mime_types : List (List ℕ × List ℕ)
mime_types =
    (codes ".html", codes "text/html; charset=utf-8")
    ∷ (codes ".js", codes "text/javascript; charset=utf-8")
    ∷ (codes ".mjs", codes "text/javascript; charset=utf-8")
    ∷ (codes ".css", codes "text/css; charset=utf-8")
    ∷ (codes ".json", codes "application/json; charset=utf-8")
    ∷ (codes ".webmanifest", codes "application/manifest+json; charset=utf-8")
    ∷ (codes ".svg", codes "image/svg+xml")
    ∷ (codes ".png", codes "image/png")
    ∷ (codes ".ico", codes "image/x-icon")
    ∷ (codes ".jpg", codes "image/jpeg")
    ∷ (codes ".gif", codes "image/gif")
    ∷ (codes ".woff", codes "font/woff")
    ∷ (codes ".woff2", codes "font/woff2")
    ∷ (codes ".ttf", codes "font/ttf")
    ∷ (codes ".map", codes "application/json")
    ∷ (codes ".mcm", codes "text/plain; charset=utf-8")
    ∷ []

unfoldable pub lookup_type : List ℕ → List (List ℕ × List ℕ) → List ℕ
lookup_type e [] = octet_stream
lookup_type e ((name, type) ∷ more) =
    let rest = lookup_type e more in if same_ignoring_case e name then type else rest

-- `mimeFor`
unfoldable pub mime_for : List ℕ → List ℕ
mime_for path = elim (extension path) [ none ↦ octet_stream | some e ↦ lookup_type e mime_types ]

-- What a client is sent: the arguments of `sendResponseHead`, and the bytes after it.
pub record Response : Type 0 where
  pub status : ℕ
  pub type : List ℕ
  pub content_length : ℕ
  pub body : List ℕ

-- `sendError`
unfoldable pub error_response : ℕ → List ℕ → Response
error_response status message = record {
  status = status;
  type = codes "text/plain; charset=utf-8";
  content_length = length message;
  body = message;
}

abbrev pub not_found : Response
not_found = error_response 404 (codes "Not found")

abbrev pub bad_request : Response
bad_request = error_response 400 (codes "Bad request")

-- `swStub`
abbrev pub sw_stub : List ℕ
sw_stub =
    codes "self.addEventListener('install', () => self.skipWaiting());\n"
    ++ (codes "self.addEventListener('activate', (event) => {\n"
        ++ (codes "    event.waitUntil((async () => {\n"
            ++ (codes "        if (self.caches) {\n"
                ++ (codes "            const keys = await self.caches.keys();\n"
                    ++ (codes
                          "            await Promise.all(keys.map((key) => self.caches.delete(key)));\n"
                        ++ (codes "        }\n"
                            ++ (codes "        await self.clients.claim();\n"
                                ++ (codes "    })());\n" ++ codes "});\n"))))))))

-- The script before and after the address that is put into it.
abbrev pub preset_start : List ℕ
preset_start =
    codes "<script>\ntry {\n"
    ++ (codes
          "    localStorage.setItem(\"automaticDevOptions\", JSON.stringify({ automaticDevOptions: false }));\n"
        ++ (codes
              "    localStorage.setItem(\"showVirtualMode\", JSON.stringify({ showVirtualMode: false }));\n"
            ++ (codes
                  "    localStorage.setItem(\"showManualMode\", JSON.stringify({ showManualMode: true }));\n"
                ++ (codes
                      "    localStorage.setItem(\"expertMode\", JSON.stringify({ expertMode: true }));\n"
                    ++ codes
                        "    localStorage.setItem(\"portOverride\", JSON.stringify({ portOverride: \""))))

abbrev pub preset_end : List ℕ
preset_end =
    codes "\" }));\n"
    ++ (codes "    localStorage.setItem(\"autoConnect\", JSON.stringify({ autoConnect: true }));\n"
        ++ codes "} catch (e) {}\n</script>")

-- `preset`, for an address that fits `gWsUrl`.
unfoldable pub preset : List ℕ → List ℕ
preset ws_url = preset_start ++ (ws_url ++ preset_end)

-- The bytes up to and with the first "<head>", and those after it; `strstr` stops at a byte 0.
abbrev pub split_head : List ℕ → Option (List ℕ × List ℕ)
split_head [] = none
split_head (c ∷ s) =
    let later = split_head s in
    if starts_with (codes "<head>") (c ∷ s)
    then some (codes "<head>", drop 6 (c ∷ s))
    else (if c == 0
        then none
        else elim later [ none ↦ none | some (before, after) ↦ some (c ∷ before, after) ])

-- `sendFile` for the page, with the bytes of its file, and these split at the "<head>".
abbrev pub page_with : List ℕ → List ℕ → Option (List ℕ × List ℕ) → Response
page_with ws_url file none = record {
  status = 200;
  type = codes "text/html; charset=utf-8";
  content_length = length file;
  body = file;
}
page_with ws_url file (some (before, after)) = record {
  status = 200;
  type = codes "text/html; charset=utf-8";
  content_length = length before + length (preset ws_url) + (length file - length before);
  body = before ++ (preset ws_url ++ after);
}

unfoldable pub page_response : List ℕ → List ℕ → Response
page_response ws_url file = page_with ws_url file (split_head file)

-- An open file: what `ftell` gives at its end, `none` where that is below 0, and what `fread` gives.
pub record File : Type 0 where
  pub size : Option ℕ
  pub bytes : List ℕ

-- The files of the disk: what `fopen` gives, and what is a directory.
pub record Files : Type 0 where
  pub read_file : List ℕ → Option File
  pub is_directory : List ℕ → Bool

-- The part of `sendFile` that knows the size: the page is read up to that, any other file to its end.
abbrev pub sized_response : List ℕ → Option ℕ → List ℕ → List ℕ → List ℕ → Response
sized_response ws_url none bytes full path = not_found
sized_response ws_url (some size) bytes full path =
    if has_text (codes "index.html") path
    then page_response ws_url (take size bytes)
    else record { status = 200; type = mime_for full; content_length = size; body = bytes }

-- `sendFile`; `malloc` is taken to succeed.
unfoldable pub file_response : List ℕ → Option File → List ℕ → List ℕ → Response
file_response ws_url none full path = not_found
file_response ws_url (some file) full path = sized_response ws_url file.size file.bytes full path

-- The file that is opened for a full path: a directory's page, or the path itself.
abbrev pub opened_path : Files → List ℕ → List ℕ
opened_path files full = if files.is_directory full then with_index full else full

-- What is answered for a full path; `none` where it is undefined.
abbrev pub opened_response : Files → List ℕ → List ℕ → Option (List ℕ) → Option Response
opened_response files ws_url path none = none
opened_response files ws_url path (some full) =
    let opened = opened_path files full in
    some (file_response ws_url (files.read_file opened) opened path)

-- What `handleClient` answers for a path that is opened.
unfoldable pub path_response : Files → List ℕ → List ℕ → List ℕ → Option Response
path_response files root ws_url path = opened_response files ws_url path (full_path root path)

abbrev pub stub_response : Option Response
stub_response = some (record {
  status = 200;
  type = codes "text/javascript; charset=utf-8";
  content_length = length sw_stub;
  body = sw_stub;
})

-- The part of `handleClient` after the query is cut off.
abbrev pub safe_response : Files → List ℕ → List ℕ → List ℕ → Option Response
safe_response files root ws_url path =
    if not (is_safe_path path)
    then some bad_request
    else if same_ignoring_case path (codes "/sw.js")
    then stub_response
    else path_response files root ws_url path

-- The part of `handleClient` after the scan of the request.
unfoldable pub url_response : Files → List ℕ → List ℕ → List ℕ → List ℕ → Option Response
url_response files root ws_url method url =
    if not (is_known_method method)
    then some bad_request
    else safe_response files root ws_url (url_path url)

-- `handleClient`, once the request is read.
unfoldable pub respond : Files → List ℕ → List ℕ → List ℕ → Option Response
respond files root ws_url request = elim (scan_request request) [
  | none ↦ some bad_request
  | some (method, url) ↦ url_response files root ws_url method url
]
