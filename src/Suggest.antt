-- ===== src/Suggest.antt =====
-- suggest/suggest.go: a candidate that is close to a text. Texts are lists of bytes; the Levenshtein
-- distance is that of a library.
pub mod Closest
mod Tests
use func.Prelude.{ℕ, ◌+◌, ◌/◌, Bool, true, false, List, [], ◌∷◌, length, ltb, eqb, if◌then◌else◌}
use func.Prelude.Texts.{same_text}
use func.Cty.{Bytes}

-- How the loop over the candidates ends: at an exact match, or with the closest so far.
pub data Search : Type 0 where
  exact : Search
  best : Bytes → ℕ → Search

-- maxDist
unfoldable pub max_dist : Bytes → ℕ
max_dist want = if eqb (length want / 5) 0 then 1 else length want / 5

module _ (distance : Bytes → Bytes → ℕ) where
  unfoldable pub search_from : Bytes → List Bytes → Bytes → ℕ → Search
  search_from want [] str dist = best str dist
  search_from want (cand ∷ cands) str dist =
      let closer = ltb (distance want cand) dist in
      let rest =
        search_from want cands (if closer then cand else str)
          (if closer then distance want cand else dist) in
      if same_text want cand then exact else rest

  -- String
  unfoldable pub suggest : Bytes → List Bytes → Bytes
  suggest want cands = elim (search_from want cands [] (max_dist want + 1)) [
    | exact ↦ want
    | best str dist ↦ if ltb (max_dist want) dist then [] else str
  ]
