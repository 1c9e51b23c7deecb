-- ===== src/Supervisor/Managers/Deletion.antt =====
-- What Delete of the peer manager leaves behind.
use dragonfly.Supervisor.Tree.Listing.{is_listed-replace_parent, is_listed}
use dragonfly.Container.Set
use dragonfly.Container.UniqueList
use dragonfly.Supervisor.Tree.Links.{
  get_parent-replace_parent, SameButLinks-refl, replace_parent-SameButLinks,
  replace_parent-SameButLoad, SameButLinks,
}
use dragonfly.Supervisor.Hosts
use dragonfly.Prelude.{
  false, update-ind, ◌∙◌, ◌≢◌, ap, ℕ, ◌≡◌, refl, inl, inr, Option, none, some, arith, ◌==◌,
  if◌then◌else◌, Option-cases,
}
use dragonfly.Prelude.Dict.{lookup-delete_self, lookup, lookup-delete, delete}
use dragonfly.Supervisor.State.{peer_task, peer_host, Ref, World}
use dragonfly.Supervisor.Peers.{set_parent, get_parent, replace_parent, drop_from_parent}
use dragonfly.Supervisor.Managers.{detach, get_peer, delete_peer, remove_peer}

-- ReplaceParent leaves the manager's maps as they are.
peers-drop_from_parent :
    (w : World) (p : Ref) (q : Option Ref) → (drop_from_parent w p q).peers ≡ w.peers
unfolding drop_from_parent
peers-drop_from_parent w p none = refl
peers-drop_from_parent w p (some o) = refl

peers-replace_parent-none : (w : World) (p : Ref) → (replace_parent w p none).peers ≡ w.peers
unfolding replace_parent
peers-replace_parent-none w p = peers-drop_from_parent w p (get_parent w p)

peers-remove_peer : (w : World) (id : ℕ) (p : Ref) → (remove_peer w id p).peers ≡ delete id w.peers
unfolding remove_peer
peers-remove_peer w id p = ap (delete id) (peers-replace_parent-none _ p)

pub delete_peer_found :
    (w : World) (id : ℕ) (p : Ref) → get_peer w id ≡ some p → delete_peer w id ≡ remove_peer w id p
unfolding delete_peer
delete_peer_found w id p e = rw (e, delete_peer)

pub delete_peer_missing : (w : World) (id : ℕ) → get_peer w id ≡ none → delete_peer w id ≡ w
unfolding delete_peer
delete_peer_missing w id e = rw (e, delete_peer)

-- After Delete the id is unknown, and every other id is found as before.
pub get_peer-delete_peer :
    (w : World) (id k : ℕ)
    → get_peer (delete_peer w id) k ≡ (if id == k then none else get_peer w k)
unfolding get_peer
get_peer-delete_peer w id k = elim (Option-cases (get_peer w id)) [
  | inl e ↦ unfold delete_peer in ground arith
  | inr (p, e) ↦
      rw (delete_peer_found w id p e, peers-remove_peer w id p) (lookup-delete id k w.peers)
]

now-replace_parent-none : (w : World) (p : Ref) → (replace_parent w p none).now ≡ w.now
unfolding replace_parent set_parent
now-replace_parent-none w p = go (get_parent w p)
  where
    go : (old : Option Ref) → (drop_from_parent w p old).now ≡ w.now
    go none = refl
    go (some o) = refl

pub now-delete_peer : (w : World) (id : ℕ) → (delete_peer w id).now ≡ w.now
now-delete_peer w id = elim (Option-cases (get_peer w id)) [
  | inl e ↦ unfold delete_peer get_peer in ground arith
  | inr (p, e) ↦ rw (delete_peer_found w id p e) (unfold remove_peer in now-replace_parent-none _ p)
]

remove_peer-SameButLinks :
    (w : World) (id : ℕ) (p x : Ref) → SameButLinks ((remove_peer w id p).peer x) (w.peer x)
unfolding remove_peer
remove_peer-SameButLinks w id p x = replace_parent-SameButLinks _ p none x

pub delete_peer-SameButLinks :
    (w : World) (id : ℕ) (x : Ref) → SameButLinks ((delete_peer w id).peer x) (w.peer x)
delete_peer-SameButLinks w id x = elim (Option-cases (get_peer w id)) [
  | inl e ↦ rw (delete_peer_missing w id e) (SameButLinks-refl (w.peer x))
  | inr (p, e) ↦ rw (delete_peer_found w id p e) (remove_peer-SameButLinks w id p x)
]

is_cdn-remove_peer :
    (w : World) (id : ℕ) (p h : Ref) → ((remove_peer w id p).host h).is_cdn ≡ (w.host h).is_cdn
unfolding remove_peer Hosts.delete_peer
is_cdn-remove_peer w id p h =
    (replace_parent-SameButLoad _ p none h).is_cdn
    ∙ update-ind (λ a. a.is_cdn ≡ (w.host h).is_cdn) w.host (w.peer p).host _ h (λ e. ground arith)
        (λ e. refl)

pub is_cdn-delete_peer :
    (w : World) (id : ℕ) (h : Ref) → ((delete_peer w id).host h).is_cdn ≡ (w.host h).is_cdn
is_cdn-delete_peer w id h = elim (Option-cases (get_peer w id)) [
  | inl e ↦ rw (delete_peer_missing w id e)
  | inr (p, e) ↦ rw (delete_peer_found w id p e) (is_cdn-remove_peer w id p h)
]

-- What is gone after Delete: the id in both maps, the entry in the task's list, and the parent.
pub record IsGone (w : World) (id : ℕ) (p : Ref) : Type 0 where
  pub unknown : get_peer w id ≡ none
  pub unhosted : Hosts.get_peer (peer_host w p) id ≡ none
  pub unlisted : is_listed w (w.peer p).task p ≡ false
  pub orphaned : get_parent w p ≡ none

module _ (w : World) (id : ℕ) (p : Ref) where
  unhosted_lem : Hosts.get_peer (peer_host (remove_peer w id p) p) id ≡ none
  unfolding remove_peer Hosts.get_peer
  unhosted_lem =
      let w' = replace_parent (detach w id p) p none in
      ap (λ h. lookup id (w'.host h).peers)
        (replace_parent-SameButLinks (detach w id p) p none p).host
      ∙ ap (lookup id) (replace_parent-SameButLoad (detach w id p) p none (w.peer p).host).peers
      ∙ ground (arith, lookup-delete_self id (peer_host w p).peers)

  unlisted_lem :
      get_parent w p ≢ some p
      → is_listed (remove_peer w id p) ((remove_peer w id p).peer p).task p ≡ false
  unfolding remove_peer UniqueList.remove UniqueList.contains Set.contains get_parent
  unlisted_lem ne = rw ((replace_parent-SameButLinks (detach w id p) p none p).task) (
      is_listed-replace_parent (detach w id p) p none (w.peer p).task p
      ∙ ground (arith, Set.has-delete p p (peer_task w p).peers.members))

  -- If the id is that of a peer that is not its own parent, then after Delete the id is unknown to
  -- the manager and to the host of the peer, the list of the task has no such peer, and the peer
  -- has no parent.
  pub delete_peer-IsGone :
      get_peer w id ≡ some p → get_parent w p ≢ some p → IsGone (delete_peer w id) id p
  delete_peer-IsGone found ne = rw (delete_peer_found w id p found) (record {
    unknown = rw (← delete_peer_found w id p found) (get_peer-delete_peer w id id ∙ ground arith);
    unhosted = unhosted_lem;
    unlisted = unlisted_lem ne;
    orphaned =
        unfold remove_peer get_parent in
        get_parent-replace_parent (detach w id p) p none p ∙ ground arith;
  })
