-- ===== src/Web/Request.antt =====
-- The request: the loop of `handleClient` that reads it, `sscanf`, and the path that is opened.
pub mod Reading
pub mod Scanning
pub mod Paths
use betaflight_sitl_udp.Base.{
  ℕ, zero, suc, ◌+◌, ◌-◌, ◌==◌, Bool, true, false, ◌&&◌, ◌||◌, not, List, [], ◌∷◌, ◌++◌, Option,
  none, some, ltb, leb, if◌then◌else◌, length, take, drop, map, codes, same_string, cut_at,
  has_byte, has_text,
}
use betaflight_sitl_udp.WsProxy.Frame.{Recv}

-- `REQUEST_MAX` and `PATH_MAX_CHARS`
abbrev pub request_max : ℕ
request_max = 8192

abbrev pub path_max_chars : ℕ
path_max_chars = 2048

-- Whether the buffer holds the end of the head; `strstr` stops at a byte 0.
abbrev pub is_complete : List ℕ → Bool
is_complete got = has_text (codes "\r\n\r\n") (cut_at 0 got)

-- The loop that reads the request, with fuel: `got` is in the buffer, `input` is to come. `none` where
-- `recv` fails.
pub read_rounds : Recv → ℕ → List ℕ → List ℕ → Option (List ℕ)
read_rounds recv zero got input = some got
read_rounds recv (suc fuel) got input =
    let n = recv (request_max - 1 - length got) input in
    let more = got ++ take n input in
    let later = read_rounds recv fuel more (drop n input) in
    if ltb (length got) (request_max - 1)
    then (if n == 0 then none else (if is_complete more then some more else later))
    else some got

-- A byte at least comes in each round, so the size of the buffer is fuel enough.
pub read_request : Recv → List ℕ → Option (List ℕ)
unfolding read_rounds
read_request recv input = read_rounds recv request_max [] input

-- White space, as `sscanf` has it.
abbrev pub is_space : ℕ → Bool
is_space c = c == 32 || (leb 9 c && leb c 13)

abbrev pub skip_spaces : List ℕ → List ℕ
skip_spaces [] = []
skip_spaces (c ∷ s) = let rest = skip_spaces s in if is_space c then rest else c ∷ s

-- `%<n>s`: at most `n` bytes that are not white space, and what follows them.
abbrev pub word : ℕ → List ℕ → List ℕ × List ℕ
word zero s = ([], s)
word (suc n) [] = ([], [])
word (suc n) (c ∷ s) =
    let (taken, rest) = word n s in if is_space c then ([], c ∷ s) else (c ∷ taken, rest)

-- `sscanf(request, "%15s %2047s", method, url) == 2`.
unfoldable pub scan_request : List ℕ → Option (List ℕ × List ℕ)
scan_request request =
    let (method, rest) = word 15 (skip_spaces (cut_at 0 request)) in
    let (url, tail) = word (path_max_chars - 1) (skip_spaces rest) in
    if length method == 0 || length url == 0 then none else some (method, url)

abbrev pub is_known_method : List ℕ → Bool
is_known_method method = same_string method (codes "GET") || same_string method (codes "HEAD")

-- The path of an URL: without the query and the fragment, and that of the page where it is "/".
unfoldable pub url_path : List ℕ → List ℕ
url_path url =
    let path = cut_at b'#' (cut_at b'?' url) in
    if length path == 0 || same_string path (codes "/") then codes "/index.html" else path

-- `isSafePath`
unfoldable pub is_safe_path : List ℕ → Bool
is_safe_path path =
    if length path == 0
    then false
    else (if has_text (codes "..") path then false else not (has_byte b':' path))

abbrev pub backslashed : ℕ → ℕ
backslashed c = if c == b'/' then 0x5c else c

-- `fullPath`, where the root and the path fit its buffer with the terminator; `_snprintf` writes none
-- where they do not, and what is read then is undefined.
unfoldable pub full_path : List ℕ → List ℕ → Option (List ℕ)
full_path root path =
    if ltb (length root + length path) (path_max_chars + 8)
    then some (map backslashed (root ++ path))
    else none

-- `strncat` of the page to a directory's path.
unfoldable pub with_index : List ℕ → List ℕ
with_index full = full ++ take (path_max_chars + 8 - length full - 1) (codes "\\index.html")
