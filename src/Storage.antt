-- ===== src/Storage.antt =====
-- Records on disk, witness/storage.py. A file is an inode with what was written to it; a directory
-- maps names to inodes. What a crash leaves is part of the state: an inode that was not synchronised
-- may hold anything, and the directory may be any of its versions since it was synchronised. What a
-- file holds is a parameter of the file system; `store_immutable` uses it with JSON values, since
-- `json.loads` reads back what `canonical_bytes` wrote.
pub mod Crash
pub mod Atomic
pub mod Once
pub mod Tests
use witness_subnet.Base.{
  ℕ, ◌+◌, Bool, true, false, not, Option, none, some, List, [], ◌∷◌, if◌then◌else◌, take,
}
use witness_subnet.Base.Eq.{◌==◌, nat_eq}
use witness_subnet.Base.Text.{Text, text_eq, text_beq}
use witness_subnet.Base.Dict.{Dict, lookup, insert, erase, contains}
use witness_subnet.Base.Outcome.{Outcome, ok, err}
use witness_subnet.Base.Method.{Action}
use witness_subnet.Errors.{Error, os_error, file_exists_error, immutable_record_changed}
use witness_subnet.Json.{
  Json, Items, Fields, null, bool, int, below, string, array, object, nil, cons, end, field, dumps,
}

pub record Inode (A : Type 0) : Type 0 where
  pub content : Option A
  pub synced : Bool

-- `pending` holds the older versions of the directory that may still be the one on disk.
pub record Disk (A : Type 0) : Type 0 where
  pub next : ℕ
  pub inodes : Dict ℕ (Inode A)
  pub current : Dict Text ℕ
  pub pending : List (Dict Text ℕ)

module _ {A : Type 0} where
  -- `os.open(…, O_CREAT | O_EXCL)` of a name that is free
  unfoldable pub create : Text → Disk A → Disk A
  create name disk = record disk {
    next = disk.next + 1;
    inodes = insert disk.next (record { content = none; synced = false }) disk.inodes;
    current = insert name disk.next disk.current;
    pending = disk.current ∷ disk.pending;
  }

  -- `stream.write(…)` and `stream.flush()`, on the inode that the open file is: the content can be
  -- read, and need not be on disk.
  unfoldable pub write : ℕ → A → Disk A → Disk A
  write inode value disk = record disk {
    inodes = insert inode (record { content = some value; synced = false }) disk.inodes;
  }

  -- `os.fsync(stream.fileno())`: what the inode holds, whatever it is, is on disk.
  unfoldable pub fsync : ℕ → Disk A → Disk A
  fsync inode disk = elim (lookup inode disk.inodes) [
    | none ↦ disk
    | some node ↦ record disk { inodes = insert inode (record node { synced = true }) disk.inodes }
  ]

  -- `temporary.replace(path)`
  unfoldable pub replace : Text → Text → Disk A → Disk A
  replace from to disk = elim (lookup from disk.current) [
    | none ↦ disk
    | some inode ↦ record disk {
      current = insert to inode (erase from disk.current);
      pending = disk.current ∷ disk.pending;
    }
  ]

  -- `os.fsync(directory_fd)`
  unfoldable pub fsync_directory : Disk A → Disk A
  fsync_directory disk = record disk { pending = [] }

  -- `temporary.unlink(missing_ok=True)`
  unfoldable pub unlink : Text → Disk A → Disk A
  unlink name disk =
      if contains name disk.current
      then record disk { current = erase name disk.current; pending = disk.current ∷ disk.pending }
      else disk

  abbrev pub apply : List (Disk A → Disk A) → Disk A → Disk A
  apply [] disk = disk
  apply (step ∷ steps) disk = apply steps (step disk)

  -- The calls of `write_private` in their order, once the temporary name is open as inode `inode`.
  abbrev pub calls : ℕ → Text → Text → A → List (Disk A → Disk A)
  calls inode temporary path value =
      write inode value ∷ fsync inode ∷ replace temporary path ∷ fsync_directory ∷ []

  -- `write_private`. A call may raise OSError: `fault` is how many of the calls have returned then.
  unfoldable pub write_private : Option ℕ → Text → Text → A → Action Error (Disk A) (Unit {0})
  write_private fault temporary path value disk =
      let opened = create temporary disk in
      let steps = calls disk.next temporary path value in
      if contains temporary disk.current then (err file_exists_error, disk) else elim fault [
        | none ↦ (ok tt, unlink temporary (apply steps opened))
        | some returned ↦ (err os_error, unlink temporary (apply (take returned steps) opened))
      ]

  -- `path.read_text()`
  unfoldable pub read : Text → Disk A → Option A
  read path disk = elim (lookup path disk.current) [
    | none ↦ none
    | some inode ↦ elim (lookup inode disk.inodes) [ none ↦ none | some node ↦ node.content ]
  ]

-- Python's `==` takes `True` for 1 and `False` for 0.
unfoldable mutual
  pub numbers : Json → Json
  numbers null = null
  numbers (bool true) = int 1
  numbers (bool false) = int 0
  numbers (int n) = int n
  numbers (below n) = below n
  numbers (string s) = string s
  numbers (array xs) = array (numbers_items xs)
  numbers (object fs) = object (numbers_fields fs)

  pub numbers_items : Items → Items
  numbers_items nil = nil
  numbers_items (cons x xs) = cons (numbers x) (numbers_items xs)

  pub numbers_fields : Fields → Fields
  numbers_fields end = end
  numbers_fields (field k v fs) = field k (numbers v) (numbers_fields fs)

-- `==` on JSON values, by the text that is the same exactly for equal values.
abbrev pub json_beq : Json → Json → Bool
json_beq v w = text_beq (dumps (numbers v)) (dumps (numbers w))

unfoldable pub store_immutable : Option ℕ → Text → Text → Json → Action Error (Disk Json) (Unit {0})
store_immutable fault temporary path value disk =
    if contains path disk.current
    then (elim (read path disk) [
      | none ↦ (err os_error, disk)
      | some stored ↦
          if json_beq stored value then (ok tt, disk) else (err immutable_record_changed, disk)
    ])
    else write_private fault temporary path value disk
