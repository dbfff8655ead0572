-- ===== src/Transfer/Sending/Tasks.antt =====
-- Which chunks an outgoing transfer sends (the loop over the files in `processOutbound` of
-- backend/internal/transfer/sender.go).
use sync_space.Base.{
  ℕ, zero, suc, String, Bool, true, false, ◌&&◌, List, [], ◌∷◌, ◌++◌, if◌then◌else◌, ◌==◌,
  string_eq, ◌≡◌, ◌⊎◌, inl, inr, arith, str_eq_iff, All, Bool-cases,
}
use mathlib.Core.Path.{subst}
use sync_space.Base.Int.{ℤ, pos, pos_part, int_eq, equal_int_iff}
use sync_space.Transfer.Models.{File}

abbrev pub is_known : String → ℤ → List (String × ℤ) → Bool
is_known id index [] = false
is_known id index ((file_id, known) ∷ more) =
    let rest = is_known id index more in if file_id == id && known == index then true else rest

-- The indices from one on of a file that the receiver does not have.
unfoldable pub file_tasks : File → List (String × ℤ) → ℕ → ℕ → List (File × ℤ)
file_tasks f known index zero = []
file_tasks f known index (suc left) =
    let rest = file_tasks f known (suc index) left in
    if is_known f.id (pos index) known then rest else (f, pos index) ∷ rest

-- The loop that hands out the tasks.
unfoldable pub tasks_of : List File → List (String × ℤ) → List (File × ℤ)
unfolding file_tasks
tasks_of [] known = []
tasks_of (f ∷ fs) known =
    let rest = tasks_of fs known in
    if f.directory then rest else file_tasks f known 0 (pos_part f.chunk_count) ++ rest

-- A chunk stands in the receiver's answer.
abbrev pub Lists : String → ℤ → List (String × ℤ) → Type 0
Lists id index [] = ⊥
Lists id index ((file_id, known) ∷ more) = ((file_id ≡ id) × (known ≡ index)) ⊎ Lists id index more

is_known-Lists :
    (id : String) (index : ℤ) (chunks : List (String × ℤ))
    → is_known id index chunks ≡ true
    → Lists id index chunks
is_known-Lists id index [] h = cc
is_known-Lists id index ((file_id, known) ∷ more) h =
    elim (Bool-cases (file_id == id && known == index)) [
      | inl same ↦ inl (
        ground (arith, same, str_eq_iff file_id id),
        ground (arith, same, equal_int_iff known index),
      )
      | inr other ↦ inr (is_known-Lists id index more (ground (arith, other, h)))
    ]

-- Each of a number of indices, from one on.
abbrev pub AllFrom : (ℕ → Type 0) → ℕ → ℕ → Type 0
AllFrom P zero index = Unit
AllFrom P (suc left) index = P index × AllFrom P left (suc index)

All-append-left :
    (P : File × ℤ → Type 0) (ts us : List (File × ℤ)) → All P (ts ++ us) → All P ts × All P us
All-append-left P [] us h = (tt, h)
All-append-left P (t ∷ ts) us (h, hs) =
    let (left, right) = All-append-left P ts us hs in ((h, left), right)

module _ (P : File × ℤ → Type 0) (known : List (String × ℤ)) where
  -- The receiver has the chunk, or it is a task with the property.
  abbrev pub IsSettled : File → ℕ → Type 0
  IsSettled f index = Lists f.id (pos index) known ⊎ P (f, pos index)

  -- Every chunk of a file is settled.
  abbrev pub AreSettled : File → Type 0
  AreSettled f = (f.directory ≡ true) ⊎ AllFrom (IsSettled f) (pos_part f.chunk_count) 0

  file_tasks-AllFrom :
      (f : File) (index left : ℕ)
      → All P (file_tasks f known index left)
      → AllFrom (IsSettled f) left index
  unfolding file_tasks
  file_tasks-AllFrom f index zero h = tt
  file_tasks-AllFrom f index (suc left) h = elim (Bool-cases (is_known f.id (pos index) known)) [
    | inl there ↦ (
      inl (is_known-Lists f.id (pos index) known there),
      file_tasks-AllFrom f (suc index) left (rw there at h),
    )
    | inr lacking ↦
        let both = rw lacking at h in (inr both.0, file_tasks-AllFrom f (suc index) left both.1)
  ]

  tasks_of-file :
      (f : File) (fs : List File)
      → f.directory ≡ false
      → tasks_of (f ∷ fs) known ≡ file_tasks f known 0 (pos_part f.chunk_count) ++ tasks_of fs known
  unfolding tasks_of
  tasks_of-file f fs file = ground (arith, file)

  tasks_of-folder :
      (f : File) (fs : List File) → f.directory ≡ true → tasks_of (f ∷ fs) known ≡ tasks_of fs known
  unfolding tasks_of
  tasks_of-folder f fs folder = ground (arith, folder)

  pub tasks_of-AreSettled :
      (files : List File) → All P (tasks_of files known) → All AreSettled files
  tasks_of-AreSettled [] h = tt
  tasks_of-AreSettled (f ∷ fs) h = elim (Bool-cases f.directory) [
    | inl folder ↦
        (inl folder, tasks_of-AreSettled fs (subst (All P) (tasks_of-folder f fs folder) h))
    | inr file ↦
        let (here, later) =
          All-append-left P (file_tasks f known 0 (pos_part f.chunk_count)) (tasks_of fs known)
            (subst (All P) (tasks_of-file f fs file) h) in
        (inr (file_tasks-AllFrom f 0 (pos_part f.chunk_count) here), tasks_of-AreSettled fs later)
  ]
