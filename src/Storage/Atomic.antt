-- ===== src/Storage/Atomic.antt =====
-- `write_private` of witness/storage.py under crashes and failing calls.
use mathlib.Core.List.{Memᴰ}
use witness_subnet.Base.{
  ℕ, zero, suc, ◌+◌, ◌≡◌, ◌≢◌, ◌⊎◌, refl, sym, ◌∙◌, true, false, Option, none, some, [], ◌∷◌, inl,
  inr, All, Bool-cases, take,
}
use witness_subnet.Base.Eq.{◌==◌, nat_eq, eq_false, eq_refl, eq_comm}
use witness_subnet.Base.Text.{Text, text_eq}
use witness_subnet.Base.Dict.{Dict, lookup, insert, erase, contains, lookup-insert, lookup-erase}
use witness_subnet.Storage.{
  Inode, Disk, create, write, fsync, replace, fsync_directory, unlink, apply, calls,
}
use witness_subnet.Storage.Crash.{NodeShows, Shows, AfterCrash, Holds, IsStable, mem-All}

all_made : {A : Type 0} (k : ℕ) (disk : Disk A) → apply (take k []) disk ≡ disk
all_made zero disk = refl
all_made (suc k) disk = refl

module _ {A : Type 0} (temporary path : Text) (value : A) (old : Option A) (disk : Disk A) where
  -- A version of the directory shows the old content, or leads to the inode that is written.
  abbrev pub IsOld : Dict Text ℕ → Type 0
  IsOld version = Holds disk.next disk.inodes (lookup path version) old

  abbrev pub IsNew : Dict Text ℕ → Type 0
  IsNew version = lookup path version ≡ some disk.next

  abbrev pub written : Inode A
  written = record { content = some value; synced = true }

  -- The inodes after some calls: only the one that is written has changed.
  pub record Wrote (node : Inode A) (inodes : Dict ℕ (Inode A)) : Type 0 where
    pub found : (at : ℕ) → at ≢ disk.next → lookup at inodes ≡ lookup at disk.inodes
    pub fresh : lookup disk.next inodes ≡ some node

  -- While the temporary name is open, and once it has replaced the path.
  record Open (node : Inode A) (now : Disk A) : Type 0 where
    wrote : Wrote node now.inodes
    counted : now.next ≡ disk.next + 1
    named : lookup temporary now.current ≡ some disk.next
    versions : All IsOld (now.current ∷ now.pending)

  pub record Replaced (now : Disk A) : Type 0 where
    pub wrote : Wrote written now.inodes
    pub counted : now.next ≡ disk.next + 1
    pub unnamed : contains temporary now.current ≡ false
    pub is_new : IsNew now.current
    pub versions : All IsOld now.pending

  Shows-old :
      (inodes : Dict ℕ (Inode A)) (at : Option ℕ) (o : Option A)
      → ((i : ℕ) → i ≢ disk.next → lookup i inodes ≡ lookup i disk.inodes)
      → Holds disk.next disk.inodes at old
      → Shows inodes at o
      → o ≡ old
  Shows-old inodes none o found h shows = shows ∙ sym h
  Shows-old inodes (some i) o found (other, a, is_old, there) shows =
      let same = found i other ∙ there in
      let content : NodeShows (some (record { content = some a; synced = true })) o =
        rw same at shows in
      content ∙ sym is_old

  Shows-new :
      (now : Disk A) (at : Option ℕ) (o : Option A)
      → Wrote written now.inodes
      → at ≡ some disk.next
      → Shows now.inodes at o
      → o ≡ some value
  Shows-new now at o w is_new shows =
      let there : Shows now.inodes (some disk.next) o = rw is_new at shows in
      let content : NodeShows (some written) o = rw w.fresh at there in content

  pub stable-AfterCrash : (o : Option A) → IsStable disk path old → AfterCrash disk path o → o ≡ old
  stable-AfterCrash o stable (AfterCrash.survives version m shows) =
      Shows-old disk.inodes (lookup path version) o (λ i other. refl)
        (mem-All IsOld (disk.current ∷ disk.pending) version stable m) shows

  old-AfterCrash :
      (node : Inode A) (now : Disk A) (o : Option A)
      → Wrote node now.inodes
      → All IsOld (now.current ∷ now.pending)
      → AfterCrash now path o
      → o ≡ old
  old-AfterCrash node now o w versions (AfterCrash.survives version m shows) =
      Shows-old now.inodes (lookup path version) o w.found
        (mem-All IsOld (now.current ∷ now.pending) version versions m) shows

  Replaced-AfterCrash :
      (now : Disk A) (o : Option A)
      → Replaced now
      → AfterCrash now path o
      → (o ≡ old) ⊎ (o ≡ some value)
  Replaced-AfterCrash now o r (AfterCrash.survives version (Memᴰ.head e) shows) =
      inr (Shows-new now (lookup path version) o r.wrote (rw e r.is_new) shows)
  Replaced-AfterCrash now o r (AfterCrash.survives version (Memᴰ.tail m) shows) = inl (
      Shows-old now.inodes (lookup path version) o r.wrote.found
        (mem-All IsOld now.pending version r.versions m) shows)

  insert-Wrote :
      (node : Inode A) (inodes : Dict ℕ (Inode A))
      → ((at : ℕ) → at ≢ disk.next → lookup at inodes ≡ lookup at disk.inodes)
      → Wrote node (insert disk.next node inodes)
  insert-Wrote node inodes found = record {
    found = λ at other.
        lookup-insert disk.next at node inodes
        ∙ rw (eq_false disk.next at (λ e. other (sym e))) (found at other);
    fresh = lookup-insert disk.next disk.next node inodes ∙ rw (eq_refl disk.next);
  }

  module _ (apart : (temporary == path) ≡ false) where
    -- A version in which only the temporary name differs shows the same.
    insert-IsOld :
        (inode : ℕ) (version : Dict Text ℕ) → IsOld version → IsOld (insert temporary inode version)
    insert-IsOld inode version h = rw (lookup-insert temporary path inode version, apart) h

    erase-IsOld : (version : Dict Text ℕ) → IsOld version → IsOld (erase temporary version)
    erase-IsOld version h = rw (lookup-erase temporary path version, apart) h

    create-Open :
        IsStable disk path old
        → Open (record { content = none; synced = false }) (create temporary disk)
    unfolding create
    create-Open h = record {
      wrote =
          insert-Wrote (record { content = none; synced = false }) disk.inodes (λ at other. refl);
      counted = refl;
      named = lookup-insert temporary temporary disk.next disk.current ∙ rw (eq_refl temporary);
      versions = (insert-IsOld disk.next disk.current h.0, h);
    }

    write-Open :
        (node : Inode A) (now : Disk A)
        → Open node now
        → Open (record { content = some value; synced = false }) (write disk.next value now)
    unfolding write
    write-Open node now o = record {
      wrote =
          insert-Wrote (record { content = some value; synced = false }) now.inodes o.wrote.found;
      counted = o.counted;
      named = o.named;
      versions = o.versions;
    }

    fsync-Open :
        (now : Disk A)
        → Open (record { content = some value; synced = false }) now
        → Open written (fsync disk.next now)
    unfolding fsync
    fsync-Open now o =
        rw (o.wrote.fresh, fsync)
          (record {
            wrote = insert-Wrote written now.inodes o.wrote.found;
            counted = o.counted;
            named = o.named;
            versions = o.versions;
          })

    pub not_temporary :
        (inode : ℕ) (version : Dict Text ℕ)
        → contains temporary (insert path inode (erase temporary version)) ≡ false
    unfolding contains
    not_temporary inode version =
        let gone : lookup temporary (erase temporary version) ≡ none =
          lookup-erase temporary temporary version ∙ rw (eq_refl temporary) in
        let other : (path == temporary) ≡ false = eq_comm path temporary ∙ apart in
        let there : lookup temporary (insert path inode (erase temporary version)) ≡ none =
          lookup-insert path temporary inode (erase temporary version) ∙ rw other gone in
        rw (there, contains) refl

    replace-Replaced : (now : Disk A) → Open written now → Replaced (replace temporary path now)
    unfolding replace
    replace-Replaced now o =
        rw (o.named, replace)
          (record {
            wrote = o.wrote;
            counted = o.counted;
            unnamed = not_temporary disk.next now.current;
            is_new =
                lookup-insert path path disk.next (erase temporary now.current) ∙ rw (eq_refl path);
            versions = o.versions;
          })

    fsync_directory-Replaced : (now : Disk A) → Replaced now → Replaced (fsync_directory now)
    unfolding fsync_directory
    fsync_directory-Replaced now r = record {
      wrote = r.wrote;
      counted = r.counted;
      unnamed = r.unnamed;
      is_new = r.is_new;
      versions = tt;
    }

    pub unlink-Replaced : (now : Disk A) → Replaced now → unlink temporary now ≡ now
    unfolding unlink
    unlink-Replaced now r = rw r.unnamed

    -- Taking the temporary name away changes nothing for the path.
    unlink-old :
        (node : Inode A) (now : Disk A) (o : Option A)
        → Wrote node now.inodes
        → All IsOld (now.current ∷ now.pending)
        → AfterCrash (unlink temporary now) path o
        → o ≡ old
    unfolding unlink
    unlink-old node now o w versions crash = elim (Bool-cases (contains temporary now.current)) [
      | inr gone ↦ old-AfterCrash node now o w versions (rw (gone, unlink) at crash)
      | inl here ↦
          old-AfterCrash node
            (record now {
              current = erase temporary now.current;
              pending = now.current ∷ now.pending;
            })
            o w (erase-IsOld now.current versions.0, versions) (rw (here, unlink) at crash)
    ]

    module _ (stable : IsStable disk path old) where
      abbrev pub opened : Disk A
      opened = create temporary disk

      abbrev pub after : ℕ → Disk A
      after k = apply (take k (calls disk.next temporary path value)) opened

      first : Open (record { content = some value; synced = false }) (write disk.next value opened)
      first = write-Open (record { content = none; synced = false }) opened (create-Open stable)

      second : Open written (fsync disk.next (write disk.next value opened))
      second = fsync-Open (write disk.next value opened) first

      third : Replaced (replace temporary path (fsync disk.next (write disk.next value opened)))
      third = replace-Replaced (fsync disk.next (write disk.next value opened)) second

      pub fourth : Replaced (
          fsync_directory (replace temporary path (fsync disk.next (write disk.next value opened))))
      fourth = fsync_directory-Replaced _ third

      -- The process is killed between two calls, or before the temporary name is taken away.
      pub killed :
          (k : ℕ) (o : Option A) → AfterCrash (after k) path o → (o ≡ old) ⊎ (o ≡ some value)
      killed zero o crash =
          let o' = create-Open stable in inl (old-AfterCrash _ _ o o'.wrote o'.versions crash)
      killed (suc zero) o crash = inl (old-AfterCrash _ _ o first.wrote first.versions crash)
      killed (suc (suc zero)) o crash =
          inl (old-AfterCrash _ _ o second.wrote second.versions crash)
      killed (suc (suc (suc zero))) o crash = Replaced-AfterCrash _ o third crash
      killed (suc (suc (suc (suc k)))) o crash =
          Replaced-AfterCrash _ o fourth (rw (all_made k _) at crash)

      -- A call raises after `k` others, and the temporary name is taken away.
      pub failed :
          (k : ℕ) (o : Option A)
          → AfterCrash (unlink temporary (after k)) path o
          → (o ≡ old) ⊎ (o ≡ some value)
      failed zero o crash =
          let o' = create-Open stable in inl (unlink-old _ _ o o'.wrote o'.versions crash)
      failed (suc zero) o crash = inl (unlink-old _ _ o first.wrote first.versions crash)
      failed (suc (suc zero)) o crash = inl (unlink-old _ _ o second.wrote second.versions crash)
      failed (suc (suc (suc zero))) o crash =
          Replaced-AfterCrash _ o third (rw (unlink-Replaced _ third) at crash)
      failed (suc (suc (suc (suc k)))) o crash =
          Replaced-AfterCrash _ o fourth (rw (all_made k _, unlink-Replaced _ fourth) at crash)
