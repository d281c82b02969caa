-- ===== src/Middleware/BodyLimit.antt =====
-- internal/middleware/bodylimit.go: the cap on the bodies of requests.
use distributed_cloud_system.Base.{
  ℕ, ◌^◌, min, Option, none, some, List, Bool, false, length, take, ltb,
}

-- `r.Body`: the bytes that the client sends, and the smallest limit of the `http.MaxBytesReader`s
-- around them. A request that a server gets has a body, which may be empty.
pub record Body : Type 0 where
  pub content : List ℕ
  pub limit : Option ℕ

-- What reading a body to its end gives: the bytes, and whether a limit has cut them off, which a
-- reader gets as `http.MaxBytesError`.
pub record ReadBody : Type 0 where
  pub bytes : List ℕ
  pub too_large : Bool

-- `http.MaxBytesReader`
abbrev pub max_bytes_reader : ℕ → Body → Body
max_bytes_reader limit b = record { content = b.content; limit = some (smaller b.limit) }
  where
    smaller : Option ℕ → ℕ
    smaller none = limit
    smaller (some n) = min n limit

abbrev read_within : Option ℕ → List ℕ → ReadBody
read_within none content = record { bytes = content; too_large = false }
read_within (some n) content = record { bytes = take n content; too_large = ltb n (length content) }

abbrev pub read_body : Body → ReadBody
read_body b = read_within b.limit b.content

-- `DefaultMaxBodyBytes`
unfoldable pub default_max_body_bytes : ℕ
default_max_body_bytes = 2 ^ 20
