-- ===== src/Scheduler/Guard/Ramp.antt =====
-- The guard against its plan: what a scene cut costs, batch by batch.
use lsfg_vk_android.Common.{
  ℕ, zero, suc, ◌-◌, ◌≤◌, ◌≡◌, refl, true, List, [], ◌∷◌, arith, ltb, if◌then◌else◌, min,
}
use lsfg_vk_android.Scheduler.Guard.{
  Guard, arm, consume_source_only, generated_reacquire_cap, limit_generated, size_max,
}

-- The batches of a guard, one after the other.
unfoldable pub limit_all : Guard → List ℕ → List ℕ
limit_all s [] = []
limit_all s (planned ∷ rest) =
    (limit_generated s planned).1 ∷ limit_all (limit_generated s planned).0 rest

-- The cap after k generated batches, and the batches under it. A cycle that plans no generated
-- frame is no batch.
abbrev pub ramp_cap : ℕ → ℕ → ℕ
ramp_cap k planned = if ltb k 6 then min planned 1 else if ltb k 12 then min planned 2 else planned

abbrev pub ramp : ℕ → List ℕ → List ℕ
ramp k [] = []
ramp k (zero ∷ rest) = 0 ∷ ramp k rest
ramp k (suc p ∷ rest) = ramp_cap k (suc p) ∷ ramp (suc k) rest

limit_all-ramp :
    (k : ℕ) (s : Guard) (plans : List ℕ)
    → s.source_only_remaining ≡ 0
    → s.generated_reacquire_remaining ≡ 12 - k
    → limit_all s plans ≡ ramp k plans
unfolding limit_all limit_generated
limit_all-ramp k s [] a b = refl
limit_all-ramp k s (zero ∷ rest) a b = ground (arith, limit_all-ramp k s rest a b)
limit_all-ramp k s (suc p ∷ rest) a b =
    ground (arith, limit_all-ramp (suc k) (limit_generated s (suc p)).0 rest)

-- After a cut and its two source-only frames, the batches follow the ramp: six of at most one
-- frame, six of at most two, and then every batch as planned.
pub arm-ramp :
    (s : Guard) (plans : List ℕ)
    → limit_all (consume_source_only (consume_source_only (arm s true))) plans ≡ ramp 0 plans
unfolding arm consume_source_only
arm-ramp s plans = limit_all-ramp 0 _ plans refl refl

-- Until the two source-only frames are consumed, nothing is generated and the ramp waits.
pub arm-source_only :
    (s : Guard) (planned : ℕ)
    → (limit_generated (arm s true) planned ≡ (arm s true, 0))
      × (limit_generated (consume_source_only (arm s true)) planned
          ≡ (consume_source_only (arm s true), 0))
unfolding arm consume_source_only limit_generated
arm-source_only s planned = (refl, refl)

-- A batch is never larger than planned, nor than the cap that the guard announces.
pub limit_generated-le :
    (s : Guard) (planned : ℕ)
    → planned ≤ size_max
    → ((limit_generated s planned).1 ≤ planned)
      × ((limit_generated s planned).1 ≤ generated_reacquire_cap s)
unfolding limit_generated generated_reacquire_cap min
limit_generated-le s planned h = ground arith
