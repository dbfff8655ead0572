-- ===== src/Transfer/Nonces.antt =====
-- The cache of used nonces (`useAuthenticationNonce` of backend/internal/transfer/service.go); times
-- are in nanoseconds.
use sync_space.Base.{
  ℕ, String, Bool, true, false, none, some, List, [], ◌∷◌, ◌≡◌, ◌+◌, ◌*◌, ◌≤◌, ltb, if◌then◌else◌,
  string_eq, str_eq_iff, arith,
}
use sync_space.Base.Dict
use sync_space.Base.Dict.{Dict}

abbrev pub lifetime : ℕ
lifetime = 5 * 60 * 1_000_000_000

-- The loop that drops the nonces of more than five minutes ago.
unfoldable pub fresh_nonces : ℕ → Dict String ℕ → Dict String ℕ
fresh_nonces now [] = []
fresh_nonces now ((nonce, used) ∷ rest) =
    let kept = fresh_nonces now rest in
    if ltb (used + lifetime) now then kept else (nonce, used) ∷ kept

unfoldable pub use_authentication_nonce : Dict String ℕ → String → ℕ → Bool × Dict String ℕ
unfolding fresh_nonces
use_authentication_nonce nonces nonce now =
    let kept = fresh_nonces now nonces in
    elim (Dict.lookup nonce kept) [
      | some used ↦ (false, kept)
      | none ↦ (true, Dict.insert nonce now kept)
    ]

unfoldable pub use_all : Dict String ℕ → List (String × ℕ) → Dict String ℕ
use_all nonces [] = nonces
use_all nonces ((nonce, now) ∷ rest) = use_all (use_authentication_nonce nonces nonce now).1 rest

-- Every use is at a time up to a limit.
abbrev pub Until : ℕ → List (String × ℕ) → Type 0
Until limit [] = Unit
Until limit ((nonce, now) ∷ rest) = (now ≤ limit) × Until limit rest

-- The nonce is known by a use at a time or later.
abbrev pub IsKnown : String → ℕ → Dict String ℕ → Type 0
IsKnown nonce at nonces = (used : ℕ) × (Dict.lookup nonce nonces ≡ some used) × (at ≤ used)

pub fresh_nonces-IsKnown :
    (nonce : String) (at now used : ℕ) (nonces : Dict String ℕ)
    → now ≤ at + lifetime
    → at ≤ used
    → Dict.lookup nonce nonces ≡ some used
    → Dict.lookup nonce (fresh_nonces now nonces) ≡ some used
unfolding fresh_nonces Dict.lookup
fresh_nonces-IsKnown nonce at now used [] l a h = ground (arith, h)
fresh_nonces-IsKnown nonce at now used ((other, when) ∷ rest) l a h =
    let tail = fresh_nonces-IsKnown nonce at now used rest l a in
    ground (arith, str_eq_iff other nonce, tail)

pub use-IsKnown :
    (nonce : String) (at : ℕ) (nonces : Dict String ℕ) (other : String) (now : ℕ)
    → now ≤ at + lifetime
    → IsKnown nonce at nonces
    → IsKnown nonce at (use_authentication_nonce nonces other now).1
unfolding use_authentication_nonce
use-IsKnown nonce at nonces other now l (used, found, a) =
    let still = fresh_nonces-IsKnown nonce at now used nonces l a found in
    let next = Dict.lookup-insert other nonce now (fresh_nonces now nonces) in
    (used, ground (arith, still, next, str_eq_iff other nonce), a)

use_all-IsKnown :
    (nonce : String) (at : ℕ) (nonces : Dict String ℕ) (uses : List (String × ℕ))
    → Until (at + lifetime) uses
    → IsKnown nonce at nonces
    → IsKnown nonce at (use_all nonces uses)
unfolding use_all
use_all-IsKnown nonce at nonces [] u k = k
use_all-IsKnown nonce at nonces ((other, now) ∷ rest) u k =
    use_all-IsKnown nonce at (use_authentication_nonce nonces other now).1 rest u.1
      (use-IsKnown nonce at nonces other now u.0 k)

pub first_use :
    (nonces : Dict String ℕ) (nonce : String) (at : ℕ)
    → (use_authentication_nonce nonces nonce at).0 ≡ true
    → IsKnown nonce at (use_authentication_nonce nonces nonce at).1
unfolding use_authentication_nonce
first_use nonces nonce at h =
    (at, ground (arith, h, Dict.lookup-insert_self nonce at (fresh_nonces at nonces)), omega arith)

-- A nonce that was accepted is refused for five minutes, whatever nonces are used in between, if the
-- clock reads at most five minutes more at each use.
pub use_all-refuses :
    (nonces : Dict String ℕ) (nonce : String) (at : ℕ) (uses : List (String × ℕ)) (now : ℕ)
    → (use_authentication_nonce nonces nonce at).0 ≡ true
    → Until (at + lifetime) uses
    → now ≤ at + lifetime
    → (use_authentication_nonce
        (use_all (use_authentication_nonce nonces nonce at).1 uses)
        nonce
        now).0
      ≡ false
unfolding use_authentication_nonce
use_all-refuses nonces nonce at uses now h u l =
    let after = (use_authentication_nonce nonces nonce at).1 in
    let (used, found, a) = use_all-IsKnown nonce at after uses u (first_use nonces nonce at h) in
    let still = fresh_nonces-IsKnown nonce at now used (use_all after uses) l a found in
    ground (arith, still)
