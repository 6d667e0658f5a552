-- ===== src/Sync/Cache/Tests.antt =====
-- `InputCache` of src/simplest_game_sync.rs on concrete inputs.
use direlera_rs.Prelude.{false, ◌≡◌, refl, some, [], ◌∷◌, Bytes, bytes_Eq, nat_eq}
use direlera_rs.Sync.Cache.{InputCache, empty, find, push}
use direlera_rs.Sync.Cache.Invariant.{Inv, empty-Inv, push-Inv}
use direlera_rs.Sync.Cache.Offsets.{rposition}
use direlera_rs.Sync.Cache.Find.{find-rposition}
use direlera_rs.Sync.Cache.Pushes.{push_all, push_all-newest}

abbrev right : Bytes
right = 1 ∷ 0 ∷ []

abbrev left : Bytes
left = 2 ∷ 0 ∷ []

abbrev filled : InputCache
filled = (push (push (push empty right).0 left).0 right).0

filled-Inv : Inv filled
filled-Inv =
    push-Inv (push (push empty right).0 left).0 right
      (push-Inv (push empty right).0 left (push-Inv empty right empty-Inv))

find-filled : find filled right ≡ some 2
unfolding find push empty
find-filled = refl

push-Inv_example : Inv (push filled left).0
push-Inv_example = push-Inv filled left filled-Inv

find-rposition_example : find filled right ≡ rposition right filled.slots
find-rposition_example = find-rposition filled right filled-Inv

push_all-newest_example :
    ((push_all (empty, false) (right ∷ left ∷ right ∷ [])).0.slots ≡ right ∷ left ∷ right ∷ [])
    × ((push_all (empty, false) (right ∷ left ∷ right ∷ [])).1 ≡ false)
push_all-newest_example = push_all-newest (right ∷ left ∷ right ∷ [])
