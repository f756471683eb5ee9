-- ===== src/Suggest/Tests.antt =====
-- A suggestion among three candidates, with a distance that counts the bytes that differ.
use func.Prelude.{ℕ, suc, ◌≤◌, ◌≡◌, refl, List, [], ◌∷◌, length, eqb, All, if◌then◌else◌}
use mathlib.Core.List.{Memᴰ}
use func.Cty.{Bytes}
use func.Suggest.{max_dist, search_from, suggest}
use func.Suggest.Closest.{suggest-closest}

abbrev differing : Bytes → Bytes → ℕ
differing [] cs = length cs
differing (b ∷ bs) [] = length (b ∷ bs)
differing (b ∷ bs) (c ∷ cs) = if eqb b c then differing bs cs else suc (differing bs cs)

abbrev queues : List Bytes
queues = (b'q' ∷ b'x' ∷ b'z' ∷ []) ∷ (b'q' ∷ b'x' ∷ []) ∷ []

suggested : suggest differing (b'q' ∷ b'u' ∷ []) queues ≡ b'q' ∷ b'x' ∷ []
unfolding suggest search_from max_dist
suggested = refl

suggest-closest_example :
    Memᴰ (b'q' ∷ b'x' ∷ []) queues
    × (1 ≤ max_dist (b'q' ∷ b'u' ∷ []))
    × All (λ cand. 1 ≤ differing (b'q' ∷ b'u' ∷ []) cand) queues
suggest-closest_example =
    suggest-closest differing (b'q' ∷ b'u' ∷ []) queues (b'q' ∷ b'x' ∷ []) refl suggested (λ e. cc)
