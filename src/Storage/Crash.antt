-- ===== src/Storage/Crash.antt =====
-- What a crash leaves under a name, in the model of witness/storage.py.
use mathlib.Core.List.{Memᴰ}
use witness_subnet.Base.{ℕ, ◌≡◌, ◌≢◌, sym, ◌∙◌, true, false, Option, none, some, List, [], ◌∷◌, All}
use witness_subnet.Base.Eq.{nat_eq, eq_false}
use witness_subnet.Base.Text.{Text, text_eq}
use witness_subnet.Base.Dict.{Dict, lookup, insert, lookup-insert}
use witness_subnet.Storage.{Inode, Disk}

pub mem-All {ℓ κ} : {A : Type ℓ} (P : A → Type κ) (xs : List A) (x : A) → All P xs → Memᴰ x xs → P x
mem-All P [] x h m = elim m [ ]
mem-All P (y ∷ xs) x h (Memᴰ.head e) = rw e h.0
mem-All P (y ∷ xs) x h (Memᴰ.tail m) = mem-All P xs x h.1 m

module _ {A : Type 0} where
  -- What an inode, and a name that leads to it, can show after a crash.
  abbrev pub NodeShows : Option (Inode A) → Option A → Type 0
  NodeShows none o = Unit
  NodeShows (some node) o = elim node.synced [ true ↦ o ≡ node.content | false ↦ Unit ]

  abbrev pub Shows : Dict ℕ (Inode A) → Option ℕ → Option A → Type 0
  Shows inodes none o = o ≡ none
  Shows inodes (some inode) o = NodeShows (lookup inode inodes) o

  -- After a crash any of the versions of the directory may be the one on disk.
  pub data AfterCrash (disk : Disk A) (path : Text) (o : Option A) : Type 0 where
    survives :
        (version : Dict Text ℕ)
        → Memᴰ version (disk.current ∷ disk.pending)
        → Shows disk.inodes (lookup path version) o
        → AfterCrash disk path o

  -- A name leads to nothing, or to an inode other than `fresh` that holds the content durably.
  abbrev pub Holds : ℕ → Dict ℕ (Inode A) → Option ℕ → Option A → Type 0
  Holds fresh inodes none old = old ≡ none
  Holds fresh inodes (some inode) old =
      (inode ≢ fresh)
      × (a : A) × (old ≡ some a)
      × (lookup inode inodes ≡ some (record { content = some a; synced = true }))

  -- The content of a path is on disk, whatever version of the directory a crash leaves.
  abbrev pub IsStable : Disk A → Text → Option A → Type 0
  IsStable disk path old =
      All (λ version. Holds disk.next disk.inodes (lookup path version) old)
        (disk.current ∷ disk.pending)

  pub Holds-Shows :
      (fresh : ℕ) (inodes : Dict ℕ (Inode A)) (node : Inode A) (at : Option ℕ) (old o : Option A)
      → Holds fresh inodes at old
      → Shows (insert fresh node inodes) at o
      → o ≡ old
  Holds-Shows fresh inodes node none old o h shows = shows ∙ sym h
  Holds-Shows fresh inodes node (some inode) old o (other, a, is_old, found) shows =
      let same : lookup inode (insert fresh node inodes)
          ≡ some (record { content = some a; synced = true }) =
        lookup-insert fresh inode node inodes
        ∙ rw (eq_false fresh inode (λ e. other (sym e))) found in
      let content : NodeShows (some (record { content = some a; synced = true })) o =
        rw same at shows in
      content ∙ sym is_old
