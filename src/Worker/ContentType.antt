-- ===== src/Worker/ContentType.antt =====
-- internal/worker/processor.go: `isTextualContentType`, with package mime and the case of letters as
-- parameters.
use Prim.Native.Char.{code}
use Prim.Native.String.{[], ◌∷◌}
use distributed_cloud_system.Base.{
  String, Option, none, some, List, [], ◌∷◌, Bool, true, false, ◌&&◌, ◌||◌, ◌==◌, str_eq, any,
}

-- `strings.HasPrefix` and `strings.HasSuffix`
unfoldable pub has_prefix : String → String → Bool
has_prefix [] s = true
has_prefix (c ∷ p) [] = false
has_prefix (c ∷ p) (d ∷ s) = code c == code d && has_prefix p s

unfoldable pub has_suffix : String → String → Bool
has_suffix p [] = str_eq p ""
has_suffix p (c ∷ s) = str_eq p (c ∷ s) || has_suffix p s

abbrev pub textual_content_types : List String
textual_content_types =
    "application/json" ∷ "application/xml" ∷ "application/javascript" ∷ "application/x-sh"
    ∷ "application/yaml" ∷ "application/x-yaml" ∷ []

-- `mime.ParseMediaType`, whose media type is `none` where it fails, and `strings.ToLower`.
pub record MediaTypes : Type 0 where
  pub parse_media_type : String → Option String
  pub to_lower : String → String

abbrev pub is_textual_media_type : String → Bool
is_textual_media_type t =
    has_prefix "text/" t
    || (has_suffix "+json" t || has_suffix "+xml" t || any (str_eq t) textual_content_types)

abbrev pub of_parsed : MediaTypes → Option String → Bool
of_parsed M none = false
of_parsed M (some t) = is_textual_media_type (M.to_lower t)

unfoldable pub is_textual_content_type : MediaTypes → String → Bool
unfolding has_prefix has_suffix
is_textual_content_type M content_type = of_parsed M (M.parse_media_type content_type)
