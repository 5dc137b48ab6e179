-- ===== src/Notify/HtmlFrag.antt =====
-- notify/htmlfrag.go: the style and the body of an HTML document.
use weops_inspect.Prelude.{
  ℕ, ◌+◌, ◌≡◌, refl, Option, none, some, [], take, drop, Str, codes, get_or,
}
use weops_inspect.Prelude.Strings.{has_prefix, index}

-- The text between the end of the tag that `open_tag` begins and the closing tag.
unfoldable pub close_at : Str → ℕ → Str → Option Str
close_at html content_start close_tag = elim (index close_tag (drop content_start html)) [
  | none ↦ none
  | some close ↦ some (take close (drop content_start html))
]

unfoldable pub open_at : Str → ℕ → Str → Option Str
unfolding close_at
open_at html start close_tag = elim (index (codes ">") (drop start html)) [
  | none ↦ none
  | some gt ↦ close_at html (start + gt + 1) close_tag
]

-- The steps that extractStyle and extractBody share, `none` at each early return.
unfoldable pub extract : Str → Str → Str → Option Str
unfolding open_at index take drop has_prefix
extract open_tag close_tag html = elim (index open_tag html) [
  | none ↦ none
  | some start ↦ open_at html start close_tag
]

unfoldable pub extract_style : Str → Str
unfolding extract
extract_style html = get_or [] (extract (codes "<style") (codes "</style>") html)

unfoldable pub extract_body : Str → Option Str
unfolding extract
extract_body html = extract (codes "<body") (codes "</body>") html

-- The body and the style; `none` if ok is false.
unfoldable pub extract_body_fragment : Str → Option (Str × Str)
unfolding extract_body extract_style
extract_body_fragment html = elim (extract_body html) [
  | none ↦ none
  | some body ↦ some (body, extract_style html)
]

extract_test :
    extract_body_fragment (codes "<html><style>a{}</style><body class='x'><p>1</p></body></html>")
    ≡ some (codes "<p>1</p>", codes "a{}")
unfolding extract_body_fragment
extract_test = refl
