-- ===== src/Storage/Proofs/Reads.antt =====
-- What only reads leaves the tables as they were.
use distributed_cloud_system.Base.{ℕ, ◌≡◌, refl, ◌∙◌, List, some, arith, Option-cases, inl, inr}
use distributed_cloud_system.Storage.World.{
  World, Database, Bytes, DbError, Error, Outcome, pass, fail, late, cut,
}
use distributed_cloud_system.Storage.Action.{
  Result, ok, err, Action, Statement, query, ◌>>=◌, pure, next_outcome, advance,
}
use distributed_cloud_system.Storage.Repository.{
  translate, get_file_info, select_file, file_row, info_of, FileInfo,
}
use distributed_cloud_system.Storage.Chunks.{query_rows, attempt_rows, get_file_chunks}
use distributed_cloud_system.Storage.Reader.{download_chunk, attempt_download, load, lift, verify}
use distributed_cloud_system.Storage.Service.{download_file_internal, hashes, Download}
use distributed_cloud_system.Storage.Proofs.Statements.{query_cases, query-ok}
use distributed_cloud_system.Storage.Proofs.Inversions.{bind-ok, translate-ok}

abbrev pub Reads : {A : Type 0} → Action A → Type 0
Reads m = (w : World) → (m w).1.db ≡ w.db

module _ {A : Type 0} where
  query-Reads : (s : Statement A) → ((now : ℕ) (d : Database) → (s now d).1 ≡ d) → Reads (query s)
  query-Reads s h w = elim (query_cases s w) [
    | inl ran ↦ rw ran (h w.now w.db)
    | inr (inl (e, failed)) ↦ rw failed refl
    | inr (inr lost) ↦ rw lost (h w.now w.db)
  ]

  translate-Reads : (f : DbError → Error) (m : Action A) → Reads m → Reads (translate f m)
  translate-Reads f m h w = go (m w) (h w)
    where
      go : (x : Result A × World) → x.1.db ≡ w.db → (translate f (λ _. x) w).1.db ≡ w.db
      go (ok a, w1) e = e
      go (err x, w1) e = e

  rows-Reads : (o : Outcome) (f : World → List A) → Reads (attempt_rows o f)
  rows-Reads pass f w = refl
  rows-Reads (fail e) f w = refl
  rows-Reads (late e) f w = refl
  rows-Reads (cut n) f w = refl

  query_rows-Reads : (f : World → List A) → Reads (query_rows f)
  unfolding query_rows
  query_rows-Reads f w = rows-Reads (next_outcome w.plan) f (advance w)

bind-Reads :
    {A B : Type 0} (m : Action A) (f : A → Action B)
    → Reads m
    → ((a : A) → Reads (f a))
    → Reads (m >>= f)
bind-Reads {A} {B} m f h k w = go (m w) (h w)
  where
    go : (x : Result A × World) → x.1.db ≡ w.db → (((λ (_ : World). x) >>= f) w).1.db ≡ w.db
    go (ok a, w1) e = k a w1 ∙ e
    go (err x, w1) e = e

get_file_info-Reads : (file : ℕ) → Reads (get_file_info file)
unfolding get_file_info select_file
get_file_info-Reads file = translate-Reads _ (query (select_file file)) (
    query-Reads (select_file file) (λ now d. elim (Option-cases (file_row file d)) [
      | inl missing ↦ rw (missing, select_file) refl
      | inr (f, there) ↦ rw (there, select_file) refl
    ]))

-- An internal download once the row has been seen.
abbrev with_chunks : ℕ → FileInfo → Action Download
with_chunks file info = get_file_chunks file >>= λ chunks. pure (hashes chunks, info)

pub download_file_internal-Reads : (file : ℕ) → Reads (download_file_internal file)
unfolding download_file_internal get_file_chunks
download_file_internal-Reads file =
    bind-Reads (get_file_info file) (with_chunks file) (get_file_info-Reads file) (λ info.
      bind-Reads (get_file_chunks file) (λ chunks. pure (hashes chunks, info)) (query_rows-Reads _)
        (λ chunks w. refl))

attempt_download-Reads : (o : Outcome) (h : ℕ) → Reads (attempt_download o h)
attempt_download-Reads pass h w = elim (Option-cases (w.objects h)) [
  | inl missing ↦ rw (missing, attempt_download) refl
  | inr (b, there) ↦ rw (there, attempt_download) refl
]
attempt_download-Reads (fail e) h w = refl
attempt_download-Reads (late e) h w = refl
attempt_download-Reads (cut n) h w = refl

module _ (sha : Bytes → ℕ) where
  pub load-Reads : (h : ℕ) → Reads (load sha h)
  unfolding load download_chunk
  load-Reads h =
      bind-Reads (download_chunk h) (λ d. lift sha (verify sha h d))
        (λ w. attempt_download-Reads (next_outcome w.plan) h (advance w)) (λ d w. refl)

-- The row that an internal download has seen.
pub download_file_internal-info :
    (file : ℕ) (w : World) (hs : List ℕ) (info : FileInfo) (w1 : World)
    → download_file_internal file w ≡ (ok (hs, info), w1)
    → (f : _) × (file_row file w.db ≡ some f) × (info ≡ info_of f)
unfolding download_file_internal get_file_info select_file
download_file_internal-info file w hs info w1 h =
    let (info', w2, found, rest) =
      bind-ok (get_file_info file) (with_chunks file) w (hs, info) w1 h in
    let (chunks, w3, listed, last) =
      bind-ok (get_file_chunks file) (λ chunks. pure (hashes chunks, info')) w2 (hs, info) w1
        rest in
    let (d, ran, e) =
      query-ok (select_file file) w info' w2
        (translate-ok _ (query (select_file file)) w info' w2 found) in
    elim (Option-cases (file_row file w.db)) [
      | inl missing ↦ absurd (ground (arith, ran, missing))
      | inr (f, there) ↦ (f, there, ground (arith, ran, there, last))
    ]
