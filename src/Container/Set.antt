-- ===== src/Container/Set.antt =====
-- pkg/container/set/set.go: a set over a Go map, as the list of its keys.
use dragonfly.Prelude.Lists
use dragonfly.Prelude.{
  ℕ, suc, ◌≡◌, Bool, true, false, ◌||◌, List, [], ◌∷◌, arith, ◌==◌, if◌then◌else◌, has,
}

-- `Add`: the new set, and whether the value was missing.
unfoldable pub add : ℕ → List ℕ → List ℕ × Bool
add v s = if has v s then (s, false) else (v ∷ s, true)

unfoldable pub delete : ℕ → List ℕ → List ℕ
delete v [] = []
delete v (x ∷ s) = let rest = delete v s in if x == v then rest else x ∷ rest

-- `Contains` with several values asks for all of them.
unfoldable pub contains : List ℕ → List ℕ → Bool
contains [] s = true
contains (v ∷ vs) s = let rest = contains vs s in if has v s then rest else false

unfoldable pub length : List ℕ → ℕ
length s = Lists.length s

pub has-add : (v b : ℕ) (s : List ℕ) → has b (add v s).0 ≡ (v == b || has b s)
unfolding add
has-add v b s = ground arith

pub has-delete : (v b : ℕ) (s : List ℕ) → has b (delete v s) ≡ (if v == b then false else has b s)
unfolding delete
has-delete v b [] = ground arith
has-delete v b (x ∷ s) = ground (arith, has-delete v b s)

pub length-add :
    (v : ℕ) (s : List ℕ) → length (add v s).0 ≡ (if has v s then length s else suc (length s))
unfolding add length
length-add v s = ground arith
