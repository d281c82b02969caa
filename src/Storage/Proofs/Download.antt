-- ===== src/Storage/Proofs/Download.antt =====
-- Reading a file back: the readers of a download hand out what was stored, or an error.
use distributed_cloud_system.Base.{
  ℕ, zero, suc, ◌+◌, ◌≤◌, ◌≡◌, refl, ap, ◌⊎◌, some, List, [], ◌∷◌, ◌++◌, true, arith, String, find,
  any, length, map, take, All, ==_iff, ==_refl, inl, inr,
}
use distributed_cloud_system.Storage.World.{World, FileRow, Bytes, Error, ready}
use distributed_cloud_system.Storage.Action.{Result, ok, err, query, advance}
use distributed_cloud_system.Storage.Repository.{
  is_file, owns_file, file_row, FileInfo, info_of, select_owned, verify_file_ownership, select_file,
  get_file_info,
}
use distributed_cloud_system.Storage.Chunks.{chunks_of, get_file_chunks, query_rows}
use distributed_cloud_system.Storage.Reader.{
  chunk_size, download_chunk, lift, copy_next, verify, load, Copied, copy_all,
}
use distributed_cloud_system.Storage.Service.{hashes, download_file}
use distributed_cloud_system.Storage.Proofs.Inversions.{bind-ok}
use distributed_cloud_system.Storage.Proofs.Loop.{InStore, flat}
use distributed_cloud_system.Storage.Proofs.Uploaded.{Uploaded}

take-all : {A : Type 0} (n : ℕ) (l : List A) → length l ≤ n → take n l ≡ l
take-all zero [] h = refl
take-all zero (x ∷ l) h = absurd (omega arith)
take-all (suc n) [] h = refl
take-all (suc n) (x ∷ l) h = ap (λ t. x ∷ t) (take-all n l (omega arith))

owner-any :
    (user file : ℕ) (fs : List FileRow) (f : FileRow)
    → find (is_file file) fs ≡ some f
    → f.user_id ≡ user
    → any (owns_file user file) fs ≡ true
owner-any user file [] f h e = ground arith
owner-any user file (x ∷ fs) f h e = ground (arith, owner-any user file fs f, ==_iff x.user_id user)

-- Nothing is going to fail.
abbrev pub IsCalm : World → Type 0
IsCalm w = w.plan ≡ []

module _ (sha : Bytes → ℕ) where
  verify-ok : (b : Bytes) → length b ≤ chunk_size → verify sha (sha b) b ≡ ok b
  unfolding verify
  verify-ok b h = ground (arith, ==_refl (sha b))

  load-ok :
      (w : World) (b : Bytes)
      → IsCalm w
      → InStore sha w.objects b
      → load sha (sha b) w ≡ (ok b, advance w)
  unfolding load download_chunk
  load-ok w b calm (there, fits) = ground (arith, take-all (chunk_size + 1) b, verify-ok b fits)

  -- A copy of pieces that are all in the bucket hands out all of them.
  pub copy_all-ok :
      (ps : List Bytes) (w : World)
      → IsCalm w
      → All (InStore sha w.objects) ps
      → (copy_all sha (map sha ps) w).0 ≡ record { out = flat ps; ended = ok tt }
  unfolding copy_all
  copy_all-ok [] w calm h = refl
  copy_all-ok (p ∷ ps) w calm h =
      ground (arith, load-ok w p calm h.0, copy_all-ok ps (advance w) (rw calm refl) h.1)

-- The world with no failure to come.
abbrev pub calm : World → World
calm w = record w { plan = [] }

module _ (user file : ℕ) (w : World) (f : FileRow) where
  verified :
      any (owns_file user file) w.db.files ≡ true
      → verify_file_ownership user file (calm w) ≡ (ok tt, calm w)
  unfolding verify_file_ownership select_owned query
  verified h = ground arith

  informed : file_row file w.db ≡ some f → get_file_info file (calm w) ≡ (ok (info_of f), calm w)
  unfolding get_file_info select_file query
  informed h = ground arith

  -- A download of a ready file by its owner.
  pub download_file-ok :
      file_row file w.db ≡ some f
      → f.user_id ≡ user
      → f.status ≡ ready
      → download_file user file (calm w) ≡ (ok (hashes (chunks_of file w.db), info_of f), calm w)
  unfolding download_file get_file_chunks query_rows
  download_file-ok found owner is_ready =
      ground (arith, verified (owner-any user file w.db.files f found owner), informed found)

module _ (sha : Bytes → ℕ) where
  pub read_back :
      (user : ℕ) (name : String) (content : Bytes) (file : ℕ) (w : World)
      → Uploaded sha user name content file w.objects w.db
      → (hs : List ℕ) × (info : FileInfo) × (download_file user file (calm w)
          ≡ (ok (hs, info), calm w))
        × (info.name ≡ name)
        × ((copy_all sha hs (calm w)).0 ≡ record { out = content; ended = ok tt })
  read_back user name content file w u = (
    hashes (chunks_of file w.db),
    info_of u.row,
    download_file-ok user file w u.row u.found u.owner u.is_ready,
    u.named,
    rw u.chunks (rw (copy_all-ok sha u.pieces (calm w) refl u.stored, u.whole)),
  )

  verify_sound :
      (h : ℕ) (d b : Bytes) → verify sha h d ≡ ok b → (sha b ≡ h) × (length b ≤ chunk_size)
  unfolding verify
  verify_sound h d b e = ground (arith, ==_iff (sha d) h)

  -- What `load` hands over has the hash that was asked for, whatever the bucket holds.
  pub load-verified :
      (h : ℕ) (w : World) (b : Bytes) (w' : World)
      → load sha h w ≡ (ok b, w')
      → (sha b ≡ h) × (length b ≤ chunk_size)
  unfolding load
  load-verified h w b w' e =
      let (d, w1, m, r) = bind-ok (download_chunk h) (λ d. lift sha (verify sha h d)) w b w' e in
      verify_sound h d b (ap (λ (x : Result Bytes × World). x.0) r)

  -- Contents whose digests are the first of a list of hashes.
  abbrev pub Matches : List Bytes → List ℕ → Type 0
  Matches [] hs = Unit
  Matches (b ∷ bs) [] = ⊥
  Matches (b ∷ bs) (h ∷ hs) = (sha b ≡ h) × Matches bs hs

  abbrev pub Verified : List ℕ → Copied → Type 0
  Verified hs c =
      (bs : List Bytes) × (c.out ≡ flat bs)
      × Matches bs hs
      × (((c.ended ≡ ok tt) × (length bs ≡ length hs)) ⊎ ((e : Error) × (c.ended ≡ err e)))

  copied :
      (h : ℕ) (hs : List ℕ) (x : Result Bytes × World) (rest : World → Copied × World)
      → ((b : Bytes) → x.0 ≡ ok b → sha b ≡ h)
      → Verified hs (rest x.1).0
      → Verified (h ∷ hs) (copy_next sha x rest).0
  copied h hs (ok b, w) rest f (bs, out, m, all) =
      (b ∷ bs, ap (λ (t : Bytes). b ++ t) out, (f b refl, m), one_more (rest w).0 all)
    where
      one_more :
          (c : Copied) {m n : ℕ}
          → ((c.ended ≡ ok tt) × (m ≡ n)) ⊎ ((e : Error) × (c.ended ≡ err e))
          → ((c.ended ≡ ok tt) × (suc m ≡ suc n)) ⊎ ((e : Error) × (c.ended ≡ err e))
      one_more c (inl (e, q)) = inl (e, ap suc q)
      one_more c (inr x) = inr x
  copied h hs (err e, w) rest f v = ([], refl, tt, inr (e, refl))

  -- Whatever the bucket holds and whatever fails, a copy hands out contents with the digests of the
  -- first hashes, and all of them unless it ends in an error.
  pub copy_all-Verified : (hs : List ℕ) (w : World) → Verified hs (copy_all sha hs w).0
  unfolding copy_all
  copy_all-Verified [] w = ([], refl, tt, inl (refl, refl))
  copy_all-Verified (h ∷ hs) w =
      copied h hs (load sha h w) (λ w'. copy_all sha hs w')
        (λ b e. (load-verified h w b (load sha h w).1 (ground arith)).0)
        (copy_all-Verified hs (load sha h w).1)
