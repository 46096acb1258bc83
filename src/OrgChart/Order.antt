-- ===== src/OrgChart/Order.antt =====
-- Sort orders: integers of either sign, and the place after the last.
use safeer_api.Common.{ℕ, zero, suc, Bool, true, false, leb, List, [], ◌∷◌, if◌then◌else◌}

-- `negsuc n` is -(n + 1)
pub data ℤ : Type 0 where
  pos : ℕ → ℤ
  negsuc : ℕ → ℤ

abbrev pub lebℤ : ℤ → ℤ → Bool
lebℤ (pos a) (pos b) = leb a b
lebℤ (negsuc a) (negsuc b) = leb b a
lebℤ (negsuc a) (pos b) = true
lebℤ (pos a) (negsuc b) = false

abbrev pub succ : ℤ → ℤ
succ (pos a) = pos (suc a)
succ (negsuc zero) = pos 0
succ (negsuc (suc a)) = negsuc a

abbrev pub maxℤ : ℤ → ℤ → ℤ
maxℤ a b = if lebℤ a b then b else a

-- the largest of a list, or `d` for an empty one
abbrev pub max_or : ℤ → List ℤ → ℤ
max_or d [] = d
max_or d (x ∷ []) = x
max_or d (x ∷ y ∷ ys) = maxℤ x (max_or d (y ∷ ys))
