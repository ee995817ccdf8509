-- ===== src/Web/Response/Confinement.antt =====
-- What a request can open: files below the root, for an URL with a slash in front.
use betaflight_sitl_udp.Base.{
  ℕ, ◌≡◌, ◌≢◌, sym, ◌∙◌, ap, true, false, not, inl, inr, List, [], ◌∷◌, ◌++◌, some, if◌then◌else◌,
  arith, codes, map, starts_with, has_text, has_byte, if_both, if_else, not-not, Option-cases,
}
use betaflight_sitl_udp.Web.Request.{
  is_known_method, is_safe_path, full_path, with_index, backslashed,
}
use betaflight_sitl_udp.Web.Request.Paths.{
  IsBelow, full_path-IsBelow, with_index-IsBelow, url_path-slash, full_path-append,
  starts_with-append, map-append,
}
use betaflight_sitl_udp.Web.Response.{
  Files, file_response, opened_path, opened_response, path_response, url_response, safe_response,
  same_ignoring_case, stub_response, bad_request,
}

-- Two disks are the same below the root.
abbrev pub AgreeBelow : List ℕ → Files → Files → Type 0
AgreeBelow root files other =
    (full : List ℕ)
    → IsBelow root full
    → (files.read_file full ≡ other.read_file full)
      × (files.is_directory full ≡ other.is_directory full)

opened_path-IsBelow :
    (files : Files) (root full : List ℕ) → IsBelow root full → IsBelow root (opened_path files full)
opened_path-IsBelow files root full below =
    if_both (IsBelow root) (files.is_directory full) (with_index-IsBelow root full below) below

opened_response-agree :
    (files other : Files) (root ws_url path full : List ℕ)
    → AgreeBelow root files other
    → IsBelow root full
    → opened_response files ws_url path (some full) ≡ opened_response other ws_url path (some full)
opened_response-agree files other root ws_url path full agree below =
    ap (λ file. some (file_response ws_url file (opened_path files full) path))
      (agree (opened_path files full) (opened_path-IsBelow files root full below)).0
    ∙ ap
        (λ d.
          let opened = if d then with_index full else full in
          some (file_response ws_url (other.read_file opened) opened path))
        (agree full below).1

path_response-agree :
    (files other : Files) (root ws_url path : List ℕ)
    → AgreeBelow root files other
    → is_safe_path (b'/' ∷ path) ≡ true
    → path_response files root ws_url (b'/' ∷ path) ≡ path_response other root ws_url (b'/' ∷ path)
unfolding path_response
path_response-agree files other root ws_url path agree safe =
    elim (Option-cases (full_path root (b'/' ∷ path))) [
      | inl long ↦
          ap (opened_response files ws_url (b'/' ∷ path)) long
          ∙ sym (ap (opened_response other ws_url (b'/' ∷ path)) long)
      | inr (full, whole) ↦
          ap (opened_response files ws_url (b'/' ∷ path)) whole
          ∙ opened_response-agree files other root ws_url (b'/' ∷ path) full agree
              (full_path-IsBelow root path full safe whole)
          ∙ sym (ap (opened_response other ws_url (b'/' ∷ path)) whole)
    ]

safe_response-agree :
    (files other : Files) (root ws_url path : List ℕ)
    → AgreeBelow root files other
    → safe_response files root ws_url (b'/' ∷ path) ≡ safe_response other root ws_url (b'/' ∷ path)
safe_response-agree files other root ws_url path agree =
    if_else (not (is_safe_path (b'/' ∷ path))) _ (λ unsafe.
      if_else (same_ignoring_case (b'/' ∷ path) (codes "/sw.js")) _ (λ page.
        path_response-agree files other root ws_url path agree
          (not-not (is_safe_path (b'/' ∷ path)) unsafe)))

-- For an URL that starts with a slash, what is answered depends on nothing but the files and directories
-- below the root: on two disks that agree on all paths that are the root, a backslash, and a text without
-- "..", ':' and '/', the answer is the same.
pub url_response-confined :
    (files other : Files) (root ws_url method url : List ℕ)
    → AgreeBelow root files other
    → url_response files root ws_url method (b'/' ∷ url)
      ≡ url_response other root ws_url method (b'/' ∷ url)
unfolding url_response
url_response-confined files other root ws_url method url agree =
    if_else (not (is_known_method method)) _ (λ known.
      ap (safe_response files root ws_url) (url_path-slash url).1
      ∙ safe_response-agree files other root ws_url (url_path-slash url).0 agree
      ∙ sym (ap (safe_response other root ws_url) (url_path-slash url).1))

differs_from_stub :
    (c : ℕ) (path : List ℕ) → c ≢ b'/' → same_ignoring_case (c ∷ path) (codes "/sw.js") ≡ false
unfolding same_ignoring_case
differs_from_stub c path slash = ground arith

-- A path with no slash in front passes the tests too: where it has no ".." and no ':', starts with
-- neither slash, fits, and is no directory, the file at the root and the path, joined with nothing
-- between them, is what is answered with, and that is not below the root: it does not start with the
-- root and a backslash.
pub safe_response-outside :
    (files : Files) (root ws_url path full : List ℕ) (c : ℕ)
    → c ≢ b'/'
    → c ≢ 0x5c
    → has_text (codes "..") (c ∷ path) ≡ false
    → has_byte b':' (c ∷ path) ≡ false
    → full_path root (c ∷ path) ≡ some full
    → files.is_directory full ≡ false
    → (safe_response files root ws_url (c ∷ path)
        ≡ some (file_response ws_url (files.read_file full) full (c ∷ path)))
      × (full ≡ map backslashed (root ++ (c ∷ path)))
      × (starts_with (map backslashed root ++ (0x5c ∷ [])) full ≡ false)
unfolding is_safe_path path_response
safe_response-outside files root ws_url path full c slash backslash dots colon e plain =
    let whole = full_path-append root (c ∷ path) full e in
    let safe : is_safe_path (c ∷ path) ≡ true = ground arith in
    (
      ap
            (λ b.
              if not b
              then some bad_request
              else (if same_ignoring_case (c ∷ path) (codes "/sw.js")
                  then stub_response
                  else path_response files root ws_url (c ∷ path)))
            safe
          ∙ ap (λ b. if b then stub_response else path_response files root ws_url (c ∷ path))
              (differs_from_stub c path slash)
          ∙ ap (opened_response files ws_url (c ∷ path)) e
          ∙ ap
              (λ d.
                let opened = if d then with_index full else full in
                some (file_response ws_url (files.read_file opened) opened (c ∷ path)))
              plain,
      whole ∙ sym (map-append backslashed root (c ∷ path)),
      ap (starts_with (map backslashed root ++ (0x5c ∷ []))) whole
          ∙ starts_with-append (map backslashed root) (map backslashed path) 0x5c (backslashed c)
              (λ same. ground arith),
    )
