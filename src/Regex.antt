-- ===== src/Regex.antt =====
-- The part of Go's `regexp` that the code uses: a pattern anchored by `^` and `$`, matched against
-- the code points of a text by derivatives. `Matches` is what a pattern means.
pub mod Laws
use ibdm.Base.{ℕ, ◌≡◌, Bool, true, false, ◌&&◌, ◌||◌, List, [], ◌∷◌, ◌++◌, if◌then◌else◌}

pub data Regex : Type 0 where
  nothing nil : Regex
  chars : (ℕ → Bool) → Regex
  seq alt : Regex → Regex → Regex
  star : Regex → Regex

-- `r?`
abbrev pub optional : Regex → Regex
optional r = alt nil r

-- The texts that a pattern stands for.
pub data Matches : Regex → List ℕ → Type 0 where
  at_nil : {u : List ℕ} → u ≡ [] → Matches nil u
  at_char : {p : ℕ → Bool} {u : List ℕ} (c : ℕ) → p c ≡ true → u ≡ c ∷ [] → Matches (chars p) u
  at_seq :
      {r q : Regex} {u : List ℕ} (s t : List ℕ)
      → Matches r s
      → Matches q t
      → u ≡ s ++ t
      → Matches (seq r q) u
  at_left : {r q : Regex} {u : List ℕ} → Matches r u → Matches (alt r q) u
  at_right : {r q : Regex} {u : List ℕ} → Matches q u → Matches (alt r q) u
  at_done : {r : Regex} {u : List ℕ} → u ≡ [] → Matches (star r) u
  at_more :
      {r : Regex} {u : List ℕ} (s t : List ℕ)
      → Matches r s
      → Matches (star r) t
      → u ≡ s ++ t
      → Matches (star r) u

unfoldable pub nullable : Regex → Bool
nullable nothing = false
nullable nil = true
nullable (chars p) = false
nullable (seq r q) = nullable r && nullable q
nullable (alt r q) = nullable r || nullable q
nullable (star r) = true

unfoldable pub deriv : ℕ → Regex → Regex
unfolding nullable
deriv c nothing = nothing
deriv c nil = nothing
deriv c (chars p) = if p c then nil else nothing
deriv c (seq r q) =
    let later = deriv c q in alt (seq (deriv c r) q) (if nullable r then later else nothing)
deriv c (alt r q) = alt (deriv c r) (deriv c q)
deriv c (star r) = seq (deriv c r) (star r)

unfoldable pub is_match : Regex → List ℕ → Bool
unfolding deriv
is_match r [] = nullable r
is_match r (c ∷ u) = is_match (deriv c r) u
