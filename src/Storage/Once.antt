-- ===== src/Storage/Once.antt =====
-- The outcomes of `write_private` and `store_immutable` of witness/storage.py.
use mathlib.Core.Path.{subst}
use witness_subnet.Base.{
  ◌∙◌, ℕ, ◌≡◌, ◌≢◌, ◌⊎◌, ◌↔◌, refl, sym, true, false, Option, none, some, [], arith, inl, inr,
  Bool-cases, Option-cases, take,
}
use witness_subnet.Base.Eq.{◌==◌, nat_eq, eq_refl}
use witness_subnet.Base.Text.{Text, text_eq, text_beq_iff}
use witness_subnet.Base.Dict.{Dict, lookup, insert, erase, lookup-insert, contains}
use witness_subnet.Base.Outcome.{Outcome, ok}
use witness_subnet.Errors.{Error}
use witness_subnet.Json.{Json, dumps}
use witness_subnet.Json.Same.{Same, dumps-Same}
use witness_subnet.Storage.{
  Inode, Disk, create, unlink, apply, calls, write_private, read, numbers, json_beq,
  store_immutable, fsync_directory, replace, fsync, write,
}
use witness_subnet.Storage.Crash.{AfterCrash, Holds, IsStable}
use witness_subnet.Storage.Atomic.{
  not_temporary, killed, failed, fourth, Replaced, unlink-Replaced, stable-AfterCrash, written,
}

module _ {A : Type 0} (temporary path : Text) (value : A) (old : Option A) (disk : Disk A) where
  -- Whichever of the calls of a write, under a temporary name other than the path, have returned
  -- when a crash comes, the path then holds its old content, which is on disk, or the whole new
  -- one.
  pub write_private-killed :
      (k : ℕ) (o : Option A)
      → (temporary == path) ≡ false
      → IsStable disk path old
      → AfterCrash
          (apply (take k (calls disk.next temporary path value)) (create temporary disk))
          path
          o
      → (o ≡ old) ⊎ (o ≡ some value)
  write_private-killed k o apart stable crash =
      killed temporary path value old disk apart stable k o crash

  -- However a write under a temporary name other than the path ends, a raise after any of its
  -- calls included, a later crash leaves the old content, which is on disk, or the whole new one.
  pub write_private-ended :
      (fault : Option ℕ) (o : Option A)
      → (temporary == path) ≡ false
      → IsStable disk path old
      → AfterCrash (write_private fault temporary path value disk).1 path o
      → (o ≡ old) ⊎ (o ≡ some value)
  unfolding write_private
  write_private-ended fault o apart stable crash =
      elim (Bool-cases (contains temporary disk.current)) [
        | inl taken ↦ inl (
            stable-AfterCrash temporary path value old disk o stable
              (rw (taken, write_private) at crash))
        | inr free ↦ elim (Option-cases fault) [
          | inl e ↦
              failed temporary path value old disk apart stable 4 o
                (rw (free, e, write_private) at crash)
          | inr (k, e) ↦
              failed temporary path value old disk apart stable k o
                (rw (free, e, write_private) at crash)
        ]
      ]

  Replaced-IsStable :
      (state : Disk A)
      → Replaced temporary path value old disk state
      → state.pending ≡ []
      → IsStable state path (some value) × (read path state ≡ some value)
  unfolding read
  Replaced-IsStable state f none_left =
      let other : disk.next ≢ state.next = λ e. ground (arith, f.counted) in
      let found : lookup disk.next state.inodes ≡ some (written temporary path value old disk) =
        f.wrote.fresh in
      rw (none_left, f.is_new, read) (((other, value, refl, found), tt), rw found refl)

  -- What the calls leave, all of them done.
  abbrev done : Disk A
  done =
      fsync_directory
        (replace temporary path (fsync disk.next (write disk.next value (create temporary disk))))

  done-pending : done.pending ≡ []
  unfolding fsync_directory
  done-pending = refl

  -- A write whose calls all return, under a temporary name that is free, returns; the new content is
  -- then what is read, and what every later crash leaves.
  pub write_private-durable :
      (temporary == path) ≡ false
      → contains temporary disk.current ≡ false
      → IsStable disk path old
      → ((write_private none temporary path value disk).0 ≡ ok tt)
        × IsStable (write_private none temporary path value disk).1 path (some value)
        × (read path (write_private none temporary path value disk).1 ≡ some value)
  unfolding write_private
  write_private-durable apart free stable =
      let f : Replaced temporary path value old disk done =
        fourth temporary path value old disk apart stable in
      let same : unlink temporary done ≡ done =
        unlink-Replaced temporary path value old disk apart done f in
      let shown = Replaced-IsStable done f done-pending in
      let all : write_private none temporary path value disk ≡ (ok tt, done) =
        rw (free, write_private, same) refl in
      subst (λ r. (r.0 ≡ ok tt) × IsStable r.1 path (some value) × (read path r.1 ≡ some value))
        (sym all) (refl, shown.0, shown.1)

module _ {A : Type 0} (temporary path : Text) (value : A) (disk : Disk A)
    (apart : (temporary == path) ≡ false) where
  -- What the calls of a write leave, all of them done
  abbrev finished : Disk A
  finished = apply (calls disk.next temporary path value) (create temporary disk)

  abbrev target : Inode A
  target = record { content = some value; synced = true }

  abbrev names : Dict Text ℕ
  names = insert path disk.next (erase temporary (insert temporary disk.next disk.current))

  -- What the file that is open holds once it is synchronised
  abbrev synced_inodes : Dict ℕ (Inode A)
  synced_inodes = insert disk.next target (
      insert disk.next (record { content = some value; synced = false })
        (insert disk.next (record { content = none; synced = false }) disk.inodes))

  fsync-written :
      fsync disk.next (write disk.next value (create temporary disk))
      ≡ record (create temporary disk) { inodes = synced_inodes }
  unfolding create write fsync
  fsync-written =
      let unsynced : Inode A = record { content = some value; synced = false } in
      let empty : Inode A = record { content = none; synced = false } in
      let there : lookup disk.next (insert disk.next unsynced (insert disk.next empty disk.inodes))
          ≡ some unsynced =
        lookup-insert disk.next disk.next unsynced (insert disk.next empty disk.inodes)
        ∙ rw (eq_refl disk.next) refl in
      rw (there, fsync) refl

  finished-current : finished.current ≡ names
  unfolding create replace fsync_directory
  finished-current =
      let here : lookup temporary (insert temporary disk.next disk.current) ≡ some disk.next =
        lookup-insert temporary temporary disk.next disk.current ∙ rw (eq_refl temporary) refl in
      rw (fsync-written, here, replace, fsync-written) refl

  finished-node : lookup disk.next finished.inodes ≡ some target
  unfolding create replace fsync_directory
  finished-node =
      let here : lookup temporary (insert temporary disk.next disk.current) ≡ some disk.next =
        lookup-insert temporary temporary disk.next disk.current ∙ rw (eq_refl temporary) refl in
      rw (fsync-written, here, replace, fsync-written)
        (lookup-insert disk.next disk.next target _ ∙ rw (eq_refl disk.next) refl)

  names-path : lookup path names ≡ some disk.next
  names-path = lookup-insert path path disk.next _ ∙ rw (eq_refl path) refl

  names-temporary : contains temporary names ≡ false
  names-temporary = not_temporary temporary path value none disk apart disk.next _

  read-at :
      (d : Disk A) (at : ℕ)
      → lookup path d.current ≡ some at
      → read path d ≡ (elim (lookup at d.inodes) [ none ↦ none | some node ↦ node.content ])
  unfolding read
  read-at d at h = rw (h, read) refl

  finished-read : read path finished ≡ some value
  unfolding read
  finished-read =
      let there : lookup path finished.current ≡ some disk.next = rw finished-current names-path in
      rw (read-at finished disk.next there, finished-node) refl

  finished-unlink : unlink temporary finished ≡ finished
  unfolding unlink
  finished-unlink =
      let gone : contains temporary finished.current ≡ false =
        rw finished-current names-temporary in
      rw gone refl

  -- A write that returns can be read.
  pub write_private-read :
      (fault : Option ℕ)
      → (write_private fault temporary path value disk).0 ≡ ok tt
      → read path (write_private fault temporary path value disk).1 ≡ some value
  unfolding write_private
  write_private-read fault h = elim (Bool-cases (contains temporary disk.current)) [
    | inl taken ↦ absurd (ground arith)
    | inr free ↦ elim (Option-cases fault) [
      | inr (k, e) ↦ absurd (ground arith)
      | inl e ↦
          let all : write_private fault temporary path value disk ≡ (ok tt, finished) =
            rw (free, e, write_private, finished-unlink) refl in
          rw all finished-read
    ]
  ]

free_path :
    (fresh : ℕ) (inodes : Dict ℕ (Inode Json)) (at : Option ℕ)
    → Holds fresh inodes at none
    → at ≡ none
free_path fresh inodes none h = refl
free_path fresh inodes (some i) (other, a, never, found) = cc

pub read-contains :
    {A : Type 0} (path : Text) (disk : Disk A) (value : A)
    → read path disk ≡ some value
    → contains path disk.current ≡ true
unfolding read contains
read-contains path disk value h = elim (Option-cases (lookup path disk.current)) [
  | inl e ↦ absurd (ground arith)
  | inr (i, e) ↦ rw (e, contains) refl
]

absent_path :
    (path : Text) (names : Dict Text ℕ) → lookup path names ≡ none → contains path names ≡ false
unfolding contains
absent_path path names e = rw (e, contains) refl

-- A call on a path that holds a value.
store_immutable-again :
    (fault : Option ℕ) (temporary path : Text) (value other : Json) (disk : Disk Json)
    → contains path disk.current ≡ true
    → read path disk ≡ some value
    → ((store_immutable fault temporary path other disk).1 ≡ disk)
      × (((store_immutable fault temporary path other disk).0 ≡ ok tt)
          ↔ Same (numbers value) (numbers other))
unfolding store_immutable
store_immutable-again fault temporary path value other disk here shown =
    let equal = dumps-Same (numbers value) (numbers other) in
    let texts = text_beq_iff (dumps (numbers value)) (dumps (numbers other)) in
    elim (Bool-cases (json_beq value other)) [
      | inl same ↦
          rw (here, shown, same, store_immutable) (refl, ((λ h. equal.0 (texts.0 same)), λ s. refl))
      | inr differs ↦
          rw (here, shown, differs, store_immutable)
            (refl, ((λ h. cc), λ s. absurd (ground (arith, texts.1 (equal.1 s)))))
    ]

store_immutable-free :
    (fault : Option ℕ) (temporary path : Text) (value : Json) (disk : Disk Json)
    → contains path disk.current ≡ false
    → store_immutable fault temporary path value disk
      ≡ write_private fault temporary path value disk
unfolding store_immutable
store_immutable-free fault temporary path value disk absent = rw (absent, store_immutable) refl

-- A call has returned, and the record is what is read and what a crash leaves.
abbrev pub Stored : Text → Json → Outcome Error (Unit {0}) × Disk Json → Type 0
Stored path value r = (r.0 ≡ ok tt) × IsStable r.1 path (some value) × (read path r.1 ≡ some value)

-- A later call changes nothing, and returns exactly when its value is the same JSON value.
abbrev pub Settled : Text → Json → Option ℕ → Text → Json → Disk Json → Type 0
Settled path value fault again other disk =
    ((store_immutable fault again path other disk).1 ≡ disk)
    × (((store_immutable fault again path other disk).0 ≡ ok tt)
        ↔ Same (numbers value) (numbers other))

-- After `store_immutable` has written a path that a crash would leave free, under a temporary
-- name that is free and not the path, the record is read and is what a crash leaves; a later call
-- changes nothing, and returns exactly when its value is the same up to the order of fields,
-- `True` counting as 1 and `False` as 0.
pub store_immutable_once :
    (temporary path : Text) (value : Json) (disk : Disk Json) (fault : Option ℕ) (again : Text)
    (other : Json)
    → (temporary == path) ≡ false
    → contains temporary disk.current ≡ false
    → IsStable disk path none
    → Stored path value (store_immutable none temporary path value disk)
      × Settled path value fault again other (store_immutable none temporary path value disk).1
store_immutable_once temporary path value disk fault again other apart free stable =
    let none_yet : lookup path disk.current ≡ none =
      free_path disk.next disk.inodes (lookup path disk.current) stable.0 in
    let absent : contains path disk.current ≡ false = absent_path path disk.current none_yet in
    let first : Stored path value (write_private none temporary path value disk) =
      write_private-durable temporary path value none disk apart free stable in
    let state = (write_private none temporary path value disk).1 in
    let here : contains path state.current ≡ true = read-contains path state value first.2 in
    let later : Settled path value fault again other state =
      store_immutable-again fault again path value other state here first.2 in
    let done : Stored path value (write_private none temporary path value disk)
        × Settled path value fault again other state =
      (first, later) in
    subst (λ r. Stored path value r × Settled path value fault again other r.1)
      (sym (store_immutable-free none temporary path value disk absent)) done
