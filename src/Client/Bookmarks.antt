-- ===== src/Client/Bookmarks.antt =====
-- The list of bookmarks of pkg/client/bookmarks.go, without its file.
use gospeak.Prelude.{
  ◌+◌, ◌≡◌, ◌↔◌, Bool, true, false, not, ◌&&◌, List, [], ◌∷◌, Option, none, some, arith, ◌==◌,
  if◌then◌else◌, is_some, length, Text, text_eq, eqb_text_iff,
}

pub record Bookmark : Type 0 where
  pub name : Text
  pub control_addr : Text
  pub voice_addr : Text
  pub username : Text
  pub token : Text

-- The test of Add.
unfoldable pub same_entry : Bookmark → Bookmark → Bool
same_entry a b = (a.control_addr == b.control_addr) && (a.username == b.username)

-- Add: the loop, and the append behind it.
unfoldable pub add : Bookmark → List Bookmark → Bool × List Bookmark
unfolding same_entry
add b [] = (true, b ∷ [])
add b (existing ∷ rest) =
    let below = add b rest in
    if same_entry existing b then (false, b ∷ rest) else (below.0, existing ∷ below.1)

-- FindByAddr
unfoldable pub find_by_addr : Text → List Bookmark → Option Bookmark
find_by_addr addr [] = none
find_by_addr addr (b ∷ rest) = if b.control_addr == addr then some b else find_by_addr addr rest

-- The bookmark of a user at an address: what Add looks for.
unfoldable pub entry : Bookmark → List Bookmark → Option Bookmark
entry key [] = none
entry key (b ∷ rest) = if same_entry b key then some b else entry key rest

same_entry_iff :
    (a b : Bookmark)
    → (same_entry a b ≡ true) ↔ ((a.control_addr ≡ b.control_addr) × (a.username ≡ b.username))
unfolding same_entry
same_entry_iff a b =
    ground (arith, eqb_text_iff a.control_addr b.control_addr, eqb_text_iff a.username b.username)

-- An added bookmark is the one of its user and address, those of other users or addresses are as
-- before, and the result and the number of bookmarks tell whether it is new.
pub add_lem :
    (b key : Bookmark) (bs : List Bookmark)
    → (entry key (add b bs).1 ≡ (if same_entry b key then some b else entry key bs))
      × ((add b bs).0 ≡ not (is_some (entry b bs)))
      × (length (add b bs).1 ≡ length bs + (if (add b bs).0 then 1 else 0))
unfolding add entry
add_lem b key [] = ground arith
add_lem b key (x ∷ bs) =
    ground (arith, add_lem b key bs, same_entry_iff x b, same_entry_iff x key, same_entry_iff b key)

-- Adding does not lose an address: it is found if it was found before or is the new one's.
pub find_by_addr-add :
    (b : Bookmark) (addr : Text) (bs : List Bookmark)
    → is_some (find_by_addr addr (add b bs).1)
      ≡ (if b.control_addr == addr then true else is_some (find_by_addr addr bs))
unfolding add find_by_addr
find_by_addr-add b addr [] = ground arith
find_by_addr-add b addr (x ∷ bs) = ground (
  arith,
  find_by_addr-add b addr bs,
  same_entry_iff x b,
  eqb_text_iff x.control_addr addr,
  eqb_text_iff b.control_addr addr,
)
