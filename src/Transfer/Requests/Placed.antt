-- ===== src/Transfer/Requests/Placed.antt =====
-- Where the files of an accepted transfer go.
use sync_space.Base.{
  ℕ, String, Bool, true, false, some, List, [], ◌∷◌, ◌≡◌, ◌≢◌, refl, arith, ◌==◌, string_eq,
  str_eq_iff, Option-cases, Bool-cases, inl, inr, ◌⊎◌, ◌||◌, ◌<>◌, has_prefix, split, All,
}
use mathlib.Core.Path.{subst}
use sync_space.Base.Int.{ℤ}
use sync_space.Transfer.Models.{
  File, Transfer, AcceptRequest, receiving, resumed_event, Outcome, ok, Outcome-cases,
}
use sync_space.Transfer.Store
use sync_space.Transfer.Paths.{Platform, secure_join, validate_relative_path}
use sync_space.Transfer.Paths.Walk.{IsName, validate_relative_path-walk}
use sync_space.Transfer.Conflicts.{Lstat, missing}
use sync_space.Transfer.Externals.{Externals}
use sync_space.Transfer.Control.{Service, Env, get, save}
use sync_space.Transfer.Requests.{place_files, acceptance, accepted, accept, policy_of}

-- The place of a relative path below a directory: every part of the path is a name, the place is the
-- directory's path joined with it, and the way from the directory to the place does not go up.
pub record IsBelow (p : Platform) (root relative target : String) : Type 0 where
  pub names : All IsName (split b'/' relative)
  pub root_abs : String
  pub rooted : p.abs root ≡ some root_abs
  pub joined : p.abs (p.join root_abs relative) ≡ some target
  pub way : String
  pub related : p.rel root_abs target ≡ some way
  pub not_parent : way ≢ ".."
  pub not_above : has_prefix (".." <> p.separator) way ≡ false

secure_join-IsBelow :
    (p : Platform) (root relative target : String)
    → secure_join p root relative ≡ some target
    → IsBelow p root relative target
unfolding secure_join
secure_join-IsBelow p root relative target h =
    elim (Bool-cases (validate_relative_path p relative)) [
      | inr unsafe ↦ ground (arith, unsafe, h)
      | inl safe ↦ elim (Option-cases (p.abs root)) [
        | inl lost ↦ ground (arith, safe, lost, h)
        | inr (root_abs, rooted) ↦ elim (Option-cases (p.abs (p.join root_abs relative))) [
          | inl lost ↦ ground (arith, safe, rooted, lost, h)
          | inr (place, joined) ↦ elim (Option-cases (p.rel root_abs place)) [
            | inl lost ↦ ground (arith, safe, rooted, joined, lost, h)
            | inr (way, related) ↦
                elim (Bool-cases (way == ".." || has_prefix (".." <> p.separator) way)) [
                  | inl up ↦ ground (arith, safe, rooted, joined, related, up, h)
                  | inr down ↦
                      let same : place ≡ target =
                        ground (arith, safe, rooted, joined, related, down, h) in
                      record {
                        names = (validate_relative_path-walk p [] relative safe).0;
                        root_abs = root_abs;
                        rooted = rooted;
                        joined = ground (arith, joined, same);
                        way = way;
                        related = subst (λ place. p.rel root_abs place ≡ some way) same related;
                        not_parent = λ e. ground (arith, str_eq_iff way "..", e, down);
                        not_above = ground (arith, down);
                      }
                ]
          ]
        ]
      ]
    ]

module _ (p : Platform) (x : Externals) (lstat : String → Lstat) where
  -- One file after the other has the place that its path has below the root, and under the policy to
  -- ask nothing stands there.
  abbrev pub ArePlaced : String → String → List File → List File → Type 0
  ArePlaced root policy [] gs = gs ≡ []
  ArePlaced root policy (f ∷ fs) gs =
      (target : String) × (rest : List File) × (gs ≡ record f { destination_path = target } ∷ rest)
      × IsBelow p root f.relative_path target
      × ((policy ≢ "prompt") ⊎ (lstat target ≡ missing))
      × ArePlaced root policy fs rest

  vacant :
      (root policy : String) (f : File) (fs gs : List File) (target : String)
      → secure_join p root f.relative_path ≡ some target
      → place_files p x lstat root policy (f ∷ fs) ≡ ok gs
      → (policy ≢ "prompt") ⊎ (lstat target ≡ missing)
  unfolding place_files
  vacant root policy f fs gs target joined h = elim (Bool-cases (policy == "prompt")) [
    | inr other ↦ inl (λ e. ground (arith, str_eq_iff policy "prompt", e, other))
    | inl asks ↦ inr (ground (arith, joined, asks, h))
  ]

  place_files-ArePlaced :
      (root policy : String) (fs gs : List File)
      → place_files p x lstat root policy fs ≡ ok gs
      → ArePlaced root policy fs gs
  unfolding place_files
  place_files-ArePlaced root policy [] gs h = ground (arith, h)
  place_files-ArePlaced root policy (f ∷ fs) gs h =
      elim (Option-cases (secure_join p root f.relative_path)) [
        | inl outside ↦ ground (arith, outside, h)
        | inr (target, joined) ↦ elim (Outcome-cases (place_files p x lstat root policy fs)) [
          | inl (e, bad) ↦ ground (arith, joined, bad, h)
          | inr (rest, good) ↦ (
            target,
            rest,
            ground (arith, joined, good, h),
            secure_join-IsBelow p root f.relative_path target joined,
            vacant root policy f fs gs target joined h,
            place_files-ArePlaced root policy fs rest good,
          )
        ]
      ]

  saved_as :
      (env : Env) (s : Service) (made : Transfer) (s' : Service) (t : Transfer)
      → save env s made resumed_event ≡ (ok t, s')
      → (t ≡ made) × (Store.save_transfer false s.tables made ≡ some s'.tables)
  unfolding save Store.save_transfer
  saved_as env s made s' t h = elim (Bool-cases env.save_fails) [
    | inl lost ↦ ground (arith, lost, h)
    | inr saved ↦ (ground (arith, saved, h), ground (arith, saved, h))
  ]

  -- The old transfer as it is saved: approved, receiving, its files in their places.
  pub record IsAccepted (old : Transfer) (destination : String) (t : Transfer) : Type 0 where
    pub asked : old.approval_required ≡ true
    pub root : p.abs destination ≡ some t.path
    pub placed : ArePlaced t.path t.conflict_policy old.files t.files
    pub approved : t.approved ≡ true
    pub receives : t.status ≡ receiving

  made_as : (made t : Transfer) → ◌≡◌ {A = Outcome Transfer} (ok made) (ok t) → made ≡ t
  made_as made t h = ground (arith, h)

  acceptance-IsAccepted :
      (now : ℕ) (mkdir : String → Bool) (available : String → ℤ) (old : Transfer)
      (request : AcceptRequest) (t : Transfer)
      → acceptance p x lstat now mkdir available old request ≡ ok t
      → IsAccepted old request.destination_path t
  unfolding acceptance
  acceptance-IsAccepted now mkdir available old request t h =
      elim (Option-cases (p.abs request.destination_path)) [
        | inl lost ↦ ground (arith, lost, h)
        | inr (root, whole) ↦
            let policy = policy_of request.conflict_policy in
            elim (Outcome-cases (place_files p x lstat root policy old.files)) [
              | inl (e, bad) ↦ ground (arith, whole, bad, h)
              | inr (files, good) ↦
                  subst (IsAccepted old request.destination_path)
                    (made_as (accepted p x lstat now old root policy files) t
                      (ground (arith, whole, good, h)))
                    (record {
                      asked = ground (arith, h);
                      root = whole;
                      placed = place_files-ArePlaced root policy old.files files good;
                      approved = refl;
                      receives = refl;
                    })
            ]
      ]

  -- A transfer that was accepted is approved and receiving; each of its files has the place to which its
  -- path, of names only, leads from the directory that the user chose, and the way there does not go up;
  -- under the policy to ask nothing stood at any of them; and it is what is saved.
  pub accept-IsAccepted :
      (env : Env) (mkdir : String → Bool) (available : String → ℤ) (s s' : Service) (id : String)
      (request : AcceptRequest) (t : Transfer)
      → accept p x lstat env mkdir available s id request ≡ (ok t, s')
      → (old : Transfer) × (get x.is_uuid env s id ≡ ok old)
        × IsAccepted old request.destination_path t
        × (Store.save_transfer false s.tables t ≡ some s'.tables)
  unfolding accept
  accept-IsAccepted env mkdir available s s' id request t h =
      elim (Outcome-cases (get x.is_uuid env s id)) [
        | inl (e, unknown) ↦ ground (arith, unknown, h)
        | inr (old, found) ↦
            elim (Outcome-cases (acceptance p x lstat env.now mkdir available old request)) [
              | inl (e, bad) ↦ ground (arith, found, bad, h)
              | inr (made, good) ↦
                  let (same, saved) = saved_as env s made s' t (ground (arith, found, good, h)) in
                  (
                    old,
                    found,
                    acceptance-IsAccepted env.now mkdir available old request t
                        (ground (arith, same, good)),
                    rw same saved,
                  )
            ]
      ]
