-- ===== src/Storage/Samples.antt =====
-- Small data for the tests: a digest without collisions, and a world with nothing in it.
use distributed_cloud_system.Base.{ℕ, zero, suc, ◌+◌, ◌*◌, ◌≡◌, refl, ap, none, [], ◌∷◌, arith}
use distributed_cloud_system.Storage.World.{World, Database, Bytes}
use distributed_cloud_system.Storage.Proofs.Stored.{IsSound}
use distributed_cloud_system.Storage.Proofs.Step.{IsCollisionFree}

-- A digest that has no collisions: a code of the whole content.
abbrev pub shift : ℕ → ℕ → ℕ
shift zero y = 2 * y + 1
shift (suc x) y = 2 * shift x y

abbrev pub encode : Bytes → ℕ
encode [] = 0
encode (b ∷ bs) = shift b (encode bs)

shift_pos : (x y : ℕ) → shift x y ≡ 0 → ⊥
shift_pos zero y h = omega arith
shift_pos (suc x) y h = shift_pos x y (omega arith)

shift_eq : (x y x' y' : ℕ) → shift x y ≡ shift x' y' → (x ≡ x') × (y ≡ y')
shift_eq zero y zero y' h = (refl, omega arith)
shift_eq zero y (suc x') y' h = absurd (omega arith)
shift_eq (suc x) y zero y' h = absurd (omega arith)
shift_eq (suc x) y (suc x') y' h = let r = shift_eq x y x' y' (omega arith) in (ap suc r.0, r.1)

pub encode-IsCollisionFree : IsCollisionFree encode
encode-IsCollisionFree [] [] h = refl
encode-IsCollisionFree [] (c ∷ cs) h = absurd (shift_pos c (encode cs) (omega arith))
encode-IsCollisionFree (b ∷ bs) [] h = absurd (shift_pos b (encode bs) (omega arith))
encode-IsCollisionFree (b ∷ bs) (c ∷ cs) h =
    let r = shift_eq b (encode bs) c (encode cs) h in
    ground (arith, encode-IsCollisionFree bs cs r.1, r.0)

abbrev pub tables : Database
tables = record { folders = []; files = []; chunks = []; links = []; embeddings = []; next_id = 1 }

abbrev pub empty_world : World
empty_world = record { db = tables; objects = λ _. none; published = []; now = 100; plan = [] }

pub empty-IsSound : IsSound encode empty_world.objects tables
empty-IsSound = record {
  consistent = record {
    by_id = tt;
    chunk_ids = tt;
    link_chunks = tt;
    file_ids = tt;
    link_files = tt;
  };
  backed = tt;
}
