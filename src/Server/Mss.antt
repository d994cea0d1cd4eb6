-- ===== src/Server/Mss.antt =====
-- `infer_detected_mss`: the segment size that the verbose log reports for a batch.
pub mod Mode
use udp_test.Base.{
  [], ℕ, ◌+◌, ◌&&◌, ◌||◌, Option, none, some, List, ◌∷◌, ltb, ◌==◌, if◌then◌else◌, length,
}

-- The inner loop.
pub count_of : ℕ → List ℕ → ℕ
count_of value [] = 0
count_of value (v ∷ sizes) = if v == value then count_of value sizes + 1 else count_of value sizes

-- The outer loop, over the sizes from the current one on.
best_size : List ℕ → List ℕ → ℕ → ℕ → ℕ
best_size sizes [] best best_count = best
best_size sizes (value ∷ rest) best best_count =
    let count = count_of value sizes in
    let better = ltb best_count count || count == best_count && ltb best value in
    best_size sizes rest (if better then value else best) (if better then count else best_count)

pub infer_detected_mss : List ℕ → Option ℕ
infer_detected_mss [] = none
infer_detected_mss (front ∷ rest) =
    if ltb (length (front ∷ rest)) 2
    then none
    else some (best_size (front ∷ rest) (front ∷ rest) front 0)
