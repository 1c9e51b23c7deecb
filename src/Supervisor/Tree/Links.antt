-- ===== src/Supervisor/Tree/Links.antt =====
-- What ReplaceParent of peer.go does to the links between peers, in both directions.
use dragonfly.Prelude.{
  update-ind, ==_iff, subst, ◌∙◌, ℕ, ◌≡◌, refl, Bool, false, ◌&&◌, Option, none, some, arith, ◌==◌,
  if◌then◌else◌, update,
}
use dragonfly.Prelude.Dict.{lookup, lookup-insert, lookup-delete}
use dragonfly.Supervisor.State.{Host, Ref, Peer, World}
use dragonfly.Supervisor.Peers.{
  insert_child, delete_child, get_parent, set_parent, replace_parent, drop_from_parent,
  add_to_parent,
}

-- A view of the peer that ReplaceParent leaves alone: all but its links.
pub record SameButLinks (a b : Peer) : Type 0 where
  pub id : a.id ≡ b.id
  pub task : a.task ≡ b.task
  pub host : a.host ≡ b.host
  pub total_piece_count : a.total_piece_count ≡ b.total_piece_count
  pub status : a.status ≡ b.status
  pub piece_costs : a.piece_costs ≡ b.piece_costs
  pub conn : a.conn ≡ b.conn
  pub leave : a.leave ≡ b.leave
  pub create_at : a.create_at ≡ b.create_at
  pub last_access_at : a.last_access_at ≡ b.last_access_at

pub SameButLinks-refl : (a : Peer) → SameButLinks a a
SameButLinks-refl a = ground arith

pub SameButLinks-trans : (a b c : Peer) → SameButLinks a b → SameButLinks b c → SameButLinks a c
SameButLinks-trans a b c h k = record {
  id = h.id ∙ k.id;
  task = h.task ∙ k.task;
  host = h.host ∙ k.host;
  total_piece_count = h.total_piece_count ∙ k.total_piece_count;
  status = h.status ∙ k.status;
  piece_costs = h.piece_costs ∙ k.piece_costs;
  conn = h.conn ∙ k.conn;
  leave = h.leave ∙ k.leave;
  create_at = h.create_at ∙ k.create_at;
  last_access_at = h.last_access_at ∙ k.last_access_at;
}

pub update-SameButLinks :
    (s : Ref → Peer) (o : Ref) (v : Peer) (x : Ref)
    → SameButLinks v (s o)
    → SameButLinks (update s o v x) (s x)
update-SameButLinks s o v x h =
    update-ind (λ a. SameButLinks a (s x)) s o v x
      (λ e. subst (λ y. SameButLinks v (s y)) ((==_iff o x).0 e) h) (λ e. SameButLinks-refl (s x))

pub drop_from_parent-SameButLinks :
    (w : World) (p : Ref) (q : Option Ref) (x : Ref)
    → SameButLinks ((drop_from_parent w p q).peer x) (w.peer x)
unfolding drop_from_parent
drop_from_parent-SameButLinks w p none x = SameButLinks-refl (w.peer x)
drop_from_parent-SameButLinks w p (some o) x = update-SameButLinks w.peer o _ x (ground arith)

add_to_parent-SameButLinks :
    (w : World) (p : Ref) (q : Option Ref) (x : Ref)
    → SameButLinks ((add_to_parent w p q).peer x) (w.peer x)
unfolding add_to_parent
add_to_parent-SameButLinks w p none x = SameButLinks-refl (w.peer x)
add_to_parent-SameButLinks w p (some o) x = update-SameButLinks w.peer o _ x (ground arith)

pub replace_parent-SameButLinks :
    (w : World) (p : Ref) (q : Option Ref) (x : Ref)
    → SameButLinks ((replace_parent w p q).peer x) (w.peer x)
unfolding replace_parent
replace_parent-SameButLinks w p q x =
    let old = get_parent w p in
    let dropped = drop_from_parent w p old in
    SameButLinks-trans _ _ _ (add_to_parent-SameButLinks (set_parent dropped p q) p q x) (
      SameButLinks-trans _ _ _
        (update-SameButLinks dropped.peer p (record (dropped.peer p) { parent = q }) x
          (ground arith))
        (drop_from_parent-SameButLinks w p old x))

-- The parent of the peer is the new one, and every other parent stays.
pub get_parent-replace_parent :
    (w : World) (p : Ref) (q : Option Ref) (x : Ref)
    → get_parent (replace_parent w p q) x ≡ update (get_parent w) p q x
unfolding replace_parent
get_parent-replace_parent w p q x = ground arith

abbrev pub child : World → Ref → ℕ → Option Ref
child w p k = lookup k (w.peer p).children

-- The test `q == x` on an optional parent.
abbrev pub is_this : Option Ref → Ref → Bool
is_this none x = false
is_this (some q) x = q == x

child-delete_child :
    (w : World) (o p x : Ref) (k : ℕ)
    → child (delete_child w o p) x k ≡ (if o == x && (w.peer p).id == k then none else child w x k)
unfolding delete_child
child-delete_child w o p x k = ground (arith, lookup-delete (w.peer p).id k (w.peer o).children)

child-insert_child :
    (w : World) (q p x : Ref) (k : ℕ)
    → child (insert_child w q p) x k
      ≡ (if q == x && (w.peer p).id == k then some p else child w x k)
unfolding insert_child
child-insert_child w q p x k = ground (arith, lookup-insert (w.peer p).id k p (w.peer q).children)

child-drop_from_parent :
    (w : World) (p : Ref) (old : Option Ref) (x : Ref) (k : ℕ)
    → child (drop_from_parent w p old) x k
      ≡ (if is_this old x && (w.peer p).id == k then none else child w x k)
unfolding drop_from_parent
child-drop_from_parent w p none x k = refl
child-drop_from_parent w p (some o) x k = child-delete_child w o p x k

child-set_parent :
    (w : World) (p : Ref) (q : Option Ref) (x : Ref) (k : ℕ)
    → child (set_parent w p q) x k ≡ child w x k
unfolding set_parent
child-set_parent w p q x k = ground arith

id-set_parent :
    (w : World) (p : Ref) (q : Option Ref) → ((set_parent w p q).peer p).id ≡ (w.peer p).id
unfolding set_parent
id-set_parent w p q = ground arith

-- A child's entry is removed from the old parent, and then written at the new one.
pub child-replace_parent :
    (w : World) (p : Ref) (q : Option Ref) (x : Ref) (k : ℕ)
    → child (replace_parent w p q) x k ≡ (
        if is_this q x && (w.peer p).id == k
        then some p
        else if is_this (get_parent w p) x && (w.peer p).id == k
        then none
        else child w x k)
unfolding replace_parent
child-replace_parent w p none x k =
    child-set_parent (drop_from_parent w p (get_parent w p)) p none x k
    ∙ child-drop_from_parent w p (get_parent w p) x k
child-replace_parent w p (some q) x k =
    let old = get_parent w p in
    let dropped = drop_from_parent w p old in
    ground (
      arith,
      child-insert_child (set_parent dropped p (some q)) q p x k,
      child-set_parent dropped p (some q) x k,
      child-drop_from_parent w p old x k,
      id-set_parent dropped p (some q),
      (drop_from_parent-SameButLinks w p old p).id,
    )

-- Of a host only the upload load changes.
pub record SameButLoad (a b : Host) : Type 0 where
  pub uuid : a.uuid ≡ b.uuid
  pub is_cdn : a.is_cdn ≡ b.is_cdn
  pub total_upload_load : a.total_upload_load ≡ b.total_upload_load
  pub peers : a.peers ≡ b.peers

pub SameButLoad-refl : (a : Host) → SameButLoad a a
SameButLoad-refl a = ground arith

pub SameButLoad-trans : (a b c : Host) → SameButLoad a b → SameButLoad b c → SameButLoad a c
SameButLoad-trans a b c h k = ground arith

update-SameButLoad :
    (s : Ref → Host) (o : Ref) (v : Host) (x : Ref)
    → SameButLoad v (s o)
    → SameButLoad (update s o v x) (s x)
update-SameButLoad s o v x h =
    update-ind (λ a. SameButLoad a (s x)) s o v x
      (λ e. subst (λ y. SameButLoad v (s y)) ((==_iff o x).0 e) h) (λ e. SameButLoad-refl (s x))

drop_from_parent-SameButLoad :
    (w : World) (p : Ref) (old : Option Ref) (h : Ref)
    → SameButLoad ((drop_from_parent w p old).host h) (w.host h)
unfolding drop_from_parent
drop_from_parent-SameButLoad w p none h = SameButLoad-refl (w.host h)
drop_from_parent-SameButLoad w p (some o) h = update-SameButLoad w.host _ _ h (ground arith)

add_to_parent-SameButLoad :
    (w : World) (p : Ref) (q : Option Ref) (h : Ref)
    → SameButLoad ((add_to_parent w p q).host h) (w.host h)
unfolding add_to_parent
add_to_parent-SameButLoad w p none h = SameButLoad-refl (w.host h)
add_to_parent-SameButLoad w p (some o) h = update-SameButLoad w.host _ _ h (ground arith)

pub replace_parent-SameButLoad :
    (w : World) (p : Ref) (q : Option Ref) (h : Ref)
    → SameButLoad ((replace_parent w p q).host h) (w.host h)
unfolding replace_parent set_parent
replace_parent-SameButLoad w p q h =
    let old = get_parent w p in
    SameButLoad-trans _ _ _
      (add_to_parent-SameButLoad (set_parent (drop_from_parent w p old) p q) p q h)
      (drop_from_parent-SameButLoad w p old h)
