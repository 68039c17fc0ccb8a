-- ===== src/Storage/Tests.antt =====
-- A record written on an empty disk.
use mathlib.Core.List.{Memᴰ}
use witness_subnet.Base.{◌≡◌, ◌⊎◌, refl, true, false, Option, none, some, [], take}
use witness_subnet.Base.Eq.{nat_eq}
use witness_subnet.Base.Text.{Text, text, text_eq, text_beq}
use witness_subnet.Base.Dict.{lookup, contains, insert, erase}
use witness_subnet.Base.Outcome.{ok, err}
use witness_subnet.Errors.{immutable_record_changed}
use witness_subnet.Json.{
  Json, bool, int, object, end, field, normal, dumps, emit, emit_chars, emit_digits, insert_field,
  escape,
}
use witness_subnet.Storage.{
  Disk, create, write, fsync, replace, fsync_directory, unlink, apply, calls, write_private, read,
  numbers, store_immutable,
}
use witness_subnet.Storage.Crash.{AfterCrash, IsStable}
use witness_subnet.Storage.Once.{
  Stored, Settled, write_private-killed, write_private-ended, store_immutable_once,
}

abbrev empty : Disk Json
empty = record { next = 0; inodes = []; current = []; pending = [] }

abbrev path : Text
path = text "r"

abbrev temporary : Text
temporary = text "t"

abbrev nothing : Option Json
nothing = none

-- {"a":true}
abbrev value : Json
value = object (field (text "a") (bool true) end)

-- {"a":1}
abbrev same : Json
same = object (field (text "a") (int 1) end)

abbrev other : Json
other = object (field (text "a") (int 2) end)

empty-IsStable : IsStable empty path none
unfolding lookup
empty-IsStable = (refl, tt)

-- The new record is read once the calls have returned.
stored : read path (write_private none temporary path value empty).1 ≡ some value
unfolding write_private create write fsync replace fsync_directory unlink read lookup insert erase
    contains text_beq
stored = refl

-- `True` is stored again as 1, and 2 is refused.
stored_same :
    (store_immutable none temporary path same (write_private none temporary path value empty).1).0
    ≡ ok tt
unfolding store_immutable write_private create write fsync replace fsync_directory unlink read
    lookup insert erase contains text_beq numbers dumps normal emit emit_chars emit_digits
    insert_field escape
stored_same = refl

stored_other :
    (store_immutable none temporary path other (write_private none temporary path value empty).1).0
    ≡ err immutable_record_changed
unfolding store_immutable write_private create write fsync replace fsync_directory unlink read
    lookup insert erase contains text_beq numbers dumps normal emit emit_chars emit_digits
    insert_field escape
stored_other = refl

-- After the rename has returned, a crash before the directory is synchronised may undo it.
renamed :
    AfterCrash (apply (take 3 (calls 0 temporary path value)) (create temporary empty)) path none
unfolding create write fsync replace lookup insert erase text_beq
renamed = AfterCrash.survives _ (Memᴰ.tail (Memᴰ.head refl)) refl

apart : text_beq temporary path ≡ false
unfolding text_beq
apart = refl

free : contains temporary empty.current ≡ false
unfolding contains lookup
free = refl

write_private-killed_example : (nothing ≡ none) ⊎ (nothing ≡ some value)
write_private-killed_example =
    write_private-killed temporary path value none empty 3 none apart empty-IsStable renamed

-- The rename raises, and the temporary name is taken away.
ended : AfterCrash (write_private (some 2) temporary path value empty).1 path none
unfolding write_private create write fsync unlink lookup insert erase contains text_beq
ended = AfterCrash.survives _ (Memᴰ.head refl) refl

write_private-ended_example : (nothing ≡ none) ⊎ (nothing ≡ some value)
write_private-ended_example =
    write_private-ended temporary path value none empty (some 2) none apart empty-IsStable ended

store_immutable_once_example :
    Stored path value (store_immutable none temporary path value empty)
    × Settled path value (some 1) temporary same (store_immutable none temporary path value empty).1
store_immutable_once_example =
    store_immutable_once temporary path value empty (some 1) temporary same apart free
      empty-IsStable
