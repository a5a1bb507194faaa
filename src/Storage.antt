-- ===== src/Storage.antt =====
-- The browser's storage, as the mini app uses it: `localStorage` and `sessionStorage` hold texts by
-- key, and their operations may throw: all of them where storage is blocked, and writes where it is
-- full. The functions that ask whether there is a window take an `Option` of it.
use hunger_platform.Prelude.{
  String, ◌≡◌, Bool, true, ◌&&◌, Option, none, some, List, Text, lookup, insert, remove,
  lookup-insert, if◌then◌else◌, str_eq, arith,
}

pub record Storage : Type 0 where
  pub items : List (String × Text)
  pub accessible : Bool
  pub has_room : Bool

-- `getItem`: the outer `none` is an exception.
unfoldable pub get_item : String → Storage → Option (Option Text)
get_item key s = if s.accessible then some (lookup key s.items) else none

-- `setItem`; `none` is an exception.
unfoldable pub set_item : String → Text → Storage → Option Storage
set_item key value s =
    if s.accessible && s.has_room
    then some (record s { items = insert key value s.items })
    else none

-- `removeItem`; `none` is an exception.
unfoldable pub remove_item : String → Storage → Option Storage
remove_item key s = if s.accessible then some (record s { items = remove key s.items }) else none

-- `try { … } catch { /* ignore */ }` round a write.
unfoldable pub attempt : Option Storage → Storage → Storage
attempt none before = before
attempt (some after) before = after

-- The storage works.
pub record IsWorking (s : Storage) : Type 0 where
  pub is_open : s.accessible ≡ true
  pub roomy : s.has_room ≡ true

pub get_item-set_item :
    (k j : String) (v : Text) (s : Storage)
    → IsWorking s
    → get_item j (attempt (set_item k v s) s)
      ≡ some (if str_eq k j then some v else lookup j s.items)
unfolding get_item set_item attempt
get_item-set_item k j v s w = ground (arith, lookup-insert k j v s.items)

pub set_item-IsWorking :
    (k : String) (v : Text) (s : Storage) → IsWorking s → IsWorking (attempt (set_item k v s) s)
unfolding set_item attempt
set_item-IsWorking k v s w = ground arith
