-- ===== src/Transfer/Conflicts.antt =====
-- The name under which a received file is put where one of its name stands already
-- (`resolveConflict` of backend/internal/transfer/files.go). `lstat` is what the disk answers.
use Prim.Native.String.{String}
use sync_space.Base.{
  ℕ, zero, suc, ◌+◌, ◌≤◌, ◌<◌, ◌<>◌, ◌≡◌, ◌≢◌, ◌⊎◌, inl, inr, refl, arith, if◌then◌else◌, ◌==◌,
  string_eq, str_eq_iff, decimal, Bool-cases,
}
use native.Mathlib.Decide.{dec_lt}
use sync_space.Transfer.Models.{Outcome, ok, err, conflict_resolution, other}
use sync_space.Transfer.Paths.{Platform}

pub data Lstat : Type 0 where
  missing present refused : Lstat

Lstat-cases : (l : Lstat) → (l ≡ missing) ⊎ (l ≡ present) ⊎ (l ≡ refused)
Lstat-cases missing = inl refl
Lstat-cases present = inr (inl refl)
Lstat-cases refused = inr (inr refl)

-- `strings.TrimSuffix`
unfoldable pub trim_suffix : String → String → String
trim_suffix suffix String.[] = String.[]
trim_suffix suffix (String.◌∷◌ c s) =
    let rest = trim_suffix suffix s in
    if String.◌∷◌ c s == suffix then String.[] else String.◌∷◌ c rest

module _ (p : Platform) (lstat : String → Lstat) where
  unfoldable pub candidate : String → ℕ → String
  unfolding trim_suffix decimal
  candidate path i =
      let ext = p.ext path in
      let base = trim_suffix ext (p.base path) in
      p.join (p.dir path) (base <> (" (" <> (decimal i <> (")" <> ext))))

  -- The loop from `i` on, for a number of rounds.
  unfoldable pub first_free : ℕ → String → ℕ → Outcome String
  unfolding candidate
  first_free zero path i = err (other "unable to allocate a non-conflicting filename")
  first_free (suc rounds) path i =
      let rest = first_free rounds path (i + 1) in
      elim (lstat (candidate path i)) [
        | missing ↦ ok (candidate path i)
        | refused ↦ err (other "lstat")
        | present ↦ rest
      ]

  unfoldable pub resolve_conflict : String → String → Outcome String
  unfolding first_free
  resolve_conflict path policy = elim (lstat path) [
    | missing ↦ ok path
    | refused ↦ err (other "lstat")
    | present ↦
        if policy == "overwrite"
        then ok path
        else if policy == "rename"
        then first_free 9999 path 1
        else err conflict_resolution
  ]

  first_free-missing :
      (rounds : ℕ) (path : String) (i : ℕ) (target : String)
      → first_free rounds path i ≡ ok target
      → lstat target ≡ missing
  unfolding first_free
  first_free-missing zero path i target h = ground (arith, h)
  first_free-missing (suc rounds) path i target h = elim (Lstat-cases (lstat (candidate path i))) [
    | inl free ↦ let same : candidate path i ≡ target = ground (arith, free, h) in rw same at free
    | inr (inl taken) ↦ first_free-missing rounds path (i + 1) target (ground (arith, taken, h))
    | inr (inr failed) ↦ ground (arith, failed, h)
  ]

  later :
      (path : String) (i k : ℕ)
      → i ≤ k
      → lstat (candidate path i) ≡ present
      → lstat (candidate path k) ≡ missing
      → i + 1 ≤ k
  later path i k l taken free = elim (dec_lt i k) [
    | yes below ↦ omega arith
    | no at ↦ let same : i ≡ k = omega arith in ground (arith, same, taken, free)
  ]

  -- The loop ends with a name if one of its candidates is free and the disk refuses no question.
  first_free-finds :
      (rounds : ℕ) (path : String) (i k : ℕ)
      → ((name : String) → lstat name ≢ refused)
      → i ≤ k
      → k < i + rounds
      → lstat (candidate path k) ≡ missing
      → (target : String) × (first_free rounds path i ≡ ok target)
  unfolding first_free
  first_free-finds zero path i k never l h free = absurd (omega (arith, l, h))
  first_free-finds (suc rounds) path i k never l h free =
      elim (Lstat-cases (lstat (candidate path i))) [
        | inl here ↦ (candidate path i, ground (arith, here))
        | inr (inl taken) ↦
            let (target, found) =
              first_free-finds rounds path (i + 1) k never (later path i k l taken free)
                (omega arith) free in
            (target, ground (arith, taken, found))
        | inr (inr failed) ↦ absurd (never (candidate path i) failed)
      ]

  -- A received file goes where nothing stands, or where the policy is to overwrite.
  pub resolve_conflict-missing :
      (path policy target : String)
      → resolve_conflict path policy ≡ ok target
      → (lstat target ≡ missing) ⊎ ((policy ≡ "overwrite") × (target ≡ path))
  unfolding resolve_conflict
  resolve_conflict-missing path policy target h = elim (Lstat-cases (lstat path)) [
    | inl free ↦ let same : path ≡ target = ground (arith, free, h) in inl (rw same at free)
    | inr (inl taken) ↦ elim (Bool-cases (policy == "overwrite")) [
      | inl over ↦
          inr (ground (arith, over, str_eq_iff policy "overwrite"), ground (arith, taken, over, h))
      | inr under ↦ inl (first_free-missing 9999 path 1 target (ground (arith, taken, under, h)))
    ]
    | inr (inr failed) ↦ ground (arith, failed, h)
  ]

  -- Under the policy to rename, the search ends with a free name if the disk refuses no question and one
  -- of the path's candidates from 1 to 9999 is free.
  pub resolve_conflict-finds :
      (path : String) (k : ℕ)
      → ((name : String) → lstat name ≢ refused)
      → 1 ≤ k
      → k < 10_000
      → lstat (candidate path k) ≡ missing
      → (target : String) × (resolve_conflict path "rename" ≡ ok target) × (lstat target ≡ missing)
  unfolding resolve_conflict
  resolve_conflict-finds path k never l h free = elim (Lstat-cases (lstat path)) [
    | inl here ↦ (path, ground (arith, here), here)
    | inr (inl taken) ↦
        let (target, found) = first_free-finds 9999 path 1 k never l (omega arith) free in
        (target, ground (arith, taken, found), first_free-missing 9999 path 1 target found)
    | inr (inr failed) ↦ absurd (never path failed)
  ]
