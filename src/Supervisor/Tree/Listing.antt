-- ===== src/Supervisor/Tree/Listing.antt =====
-- Which peers the lists of the tasks hold after the link operations of peer.go.
use mathlib.Core.Path.{ap₂}
use dragonfly.Prelude.{◌∙◌, ◌≡◌, refl, Bool, false, ◌&&◌, ◌||◌, Option, none, some, arith, ◌==◌}
use dragonfly.Container.UniqueList
use dragonfly.Container.UniqueList.Laws.{contains-insert}
use dragonfly.Supervisor.State.{Ref, World, peer_task}
use dragonfly.Supervisor.Peers.{
  sorted_value, update_in_task, insert_child, delete_child, get_parent, set_parent, replace_parent,
  drop_from_parent, add_to_parent, take_child, drop_child,
}
use dragonfly.Supervisor.Tree.Links.{drop_from_parent-SameButLinks}

-- The list of the task at address `t` holds the peer at address `x`.
abbrev pub is_listed : World → Ref → Ref → Bool
is_listed w t x = UniqueList.contains (w.task t).peers x

-- UpdatePeer(o) adds `o` to the list of its own task.
abbrev pub adds : World → Option Ref → Ref → Ref → Bool
adds w none t x = false
adds w (some o) t x = (w.peer o).task == t && o == x

is_listed-update_in_task :
    (w : World) (o t x : Ref)
    → is_listed (update_in_task w o) t x ≡ (adds w (some o) t x || is_listed w t x)
unfolding update_in_task
is_listed-update_in_task w o t x =
    ground (arith, contains-insert (sorted_value w) o x (peer_task w o).peers)

is_listed-drop_from_parent :
    (w : World) (p : Ref) (old : Option Ref) (t x : Ref)
    → is_listed (drop_from_parent w p old) t x ≡ (adds w old t x || is_listed w t x)
unfolding drop_from_parent delete_child
is_listed-drop_from_parent w p none t x = refl
is_listed-drop_from_parent w p (some o) t x =
    ground (arith, is_listed-update_in_task (drop_child w o p) o t x)

is_listed-add_to_parent :
    (w : World) (p : Ref) (q : Option Ref) (t x : Ref)
    → is_listed (add_to_parent w p q) t x ≡ (adds w q t x || is_listed w t x)
unfolding add_to_parent insert_child
is_listed-add_to_parent w p none t x = refl
is_listed-add_to_parent w p (some o) t x =
    ground (arith, is_listed-update_in_task (take_child w o p) o t x)

adds_same :
    (w : World) (p : Ref) (q : Option Ref) (t x : Ref)
    → adds (set_parent (drop_from_parent w p (get_parent w p)) p q) q t x ≡ adds w q t x
unfolding set_parent
adds_same w p none t x = refl
adds_same w p (some o) t x =
    ground (arith, (drop_from_parent-SameButLinks w p (get_parent w p) o).task)

-- After ReplaceParent the list of a task has the peers it had, the old parent, and the new parent
-- if there is one, whether or not these two were listed before.
pub is_listed-replace_parent :
    (w : World) (p : Ref) (q : Option Ref) (t x : Ref)
    → is_listed (replace_parent w p q) t x
      ≡ (adds w q t x || (adds w (get_parent w p) t x || is_listed w t x))
unfolding replace_parent
is_listed-replace_parent w p q t x =
    let old = get_parent w p in
    let moved = set_parent (drop_from_parent w p old) p q in
    is_listed-add_to_parent moved p q t x
    ∙ ap₂ ◌||◌ (adds_same w p q t x) (is_listed-drop_from_parent w p old t x)
