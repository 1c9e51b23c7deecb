-- ===== src/Examples/Caching.antt =====
-- pkg/cache on two items, of which the first expires at 50.
use dragonfly.Prelude.{
  ◌==◌, ℕ, ◌≡◌, refl, Option, none, some, Bool, true, false, List, [], ◌∷◌, ◌++◌, ◌⊎◌,
}
use dragonfly.Prelude.Dict.{Dict, lookup}
use dragonfly.Prelude.Int.{ℤ, pos}
use dragonfly.Cache.{Item, Cache, overdue, expiry, get, delete_expired, load}
use dragonfly.Cache.Sweep.{IsMap, spared, lookup-delete_expired}
use dragonfly.Cache.Loading.{calls-delete_expired, fallen}

abbrev early : Item ℕ
early = record { object = 7; expiration = pos 50 }

abbrev held : Cache ℕ
held = record {
  default_expiration = pos 100;
  items = (1, early) ∷ (2, record { object = 8; expiration = pos 0 }) ∷ [];
  on_evicted = true;
  calls = [];
}

abbrev saved : Dict (Item ℕ)
saved = (1, record { object = 9; expiration = pos 0 }) ∷ []

held-IsMap : IsMap held.items
held-IsMap = (refl, (refl, tt))

swept_run : (delete_expired held (pos 60)).calls ≡ (1, 7) ∷ []
unfolding delete_expired lookup
swept_run = refl

expiry_run : expiry held (pos 5) (pos 0) ≡ pos 105
unfolding expiry dragonfly.Prelude.Int.◌+ℤ◌
expiry_run = refl

load_run : get (load held (pos 60) saved) 1 ≡ some 9
unfolding load get lookup dragonfly.Prelude.Dict.insert
load_run = refl

overdue_run : overdue (pos 60) early ≡ true
unfolding overdue
overdue_run = refl

first_run : lookup 1 held.items ≡ some early
unfolding lookup
first_run = refl

lookup-delete_expired_example :
    lookup 1 (delete_expired held (pos 60)).items ≡ spared (pos 60) (lookup 1 held.items)
lookup-delete_expired_example = lookup-delete_expired held (pos 60) 1 held-IsMap

calls-delete_expired_example :
    (delete_expired held (pos 60)).calls ≡ held.calls ++ fallen (pos 60) held.items
calls-delete_expired_example = calls-delete_expired held (pos 60) held-IsMap
