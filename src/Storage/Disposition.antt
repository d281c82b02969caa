-- ===== src/Storage/Disposition.antt =====
-- internal/storage/handler.go: `contentDisposition`, the header of a download. What
-- `mime.FormatMediaType` makes of a filename is a parameter.
pub mod Safe
use Prim.Native.Char.{Char, code, char}
use Prim.Native.String.{[], ◌∷◌}
use distributed_cloud_system.Base.{
  ℕ, String, Option, none, some, List, [], ◌∷◌, Bool, ◌||◌, ltb, ◌==◌, str_eq, any, if◌then◌else◌,
  split,
}

-- `strings.ReplaceAll(name, "\\", "/")`
unfoldable pub forward_slashes : String → String
forward_slashes [] = ""
forward_slashes (c ∷ s) =
    let rest = forward_slashes s in if code c == 92 then char b'/' tt ∷ rest else c ∷ rest

-- The last part that is not empty.
unfoldable pub last_part : List String → Option String
last_part [] = none
last_part (w ∷ ws) =
    let rest = last_part ws in
    elim rest [ some last ↦ some last | none ↦ if str_eq w "" then none else some w ]

abbrev pub or_root : Option String → String
or_root none = "/"
or_root (some last) = last

-- `path.Base`: without slashes at the end, what stands behind the last slash.
unfoldable pub base : String → String
unfolding last_part
base s = if str_eq s "" then "." else or_root (last_part (split b'/' s))

abbrev pub is_control : ℕ → Bool
is_control n = ltb n 0x20 || n == 0x7F

-- `strings.Map` with a function that drops control characters.
unfoldable pub without_control : String → String
without_control [] = ""
without_control (c ∷ s) =
    let rest = without_control s in if is_control (code c) then rest else c ∷ rest

abbrev pub reserved : List String
reserved = "" ∷ "." ∷ ".." ∷ "/" ∷ []

abbrev pub or_download : String → String
or_download name = if any (str_eq name) reserved then "download" else name

-- The name that goes into the header.
unfoldable pub safe_name : String → String
unfolding base without_control forward_slashes
safe_name name = or_download (without_control (base (forward_slashes name)))

unfoldable pub content_disposition : (String → String) → String → String
unfolding safe_name
content_disposition format_media_type name =
    let formatted = format_media_type (safe_name name) in
    if str_eq formatted "" then "attachment; filename=\"download\"" else formatted
