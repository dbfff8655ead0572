-- ===== src/Transfer/Offers/Replay.antt =====
-- An offer cannot be sent twice: its nonce is spent when it has passed the signature check.
use sync_space.Base.{
  ℕ, String, true, none, some, List, [], ◌∷◌, ◌≡◌, ◌≤◌, ◌+◌, sym, ◌≢◌, arith, string_eq,
  Option-cases, inl, inr,
}
use mathlib.Core.Path.{subst}
use sync_space.Transfer.Models.{
  Offer, PeerAuthentication, Transfer, TransferError, Outcome, ok, err, unauthorized,
}
use sync_space.Transfer.Paths.{Platform}
use sync_space.Transfer.Externals.{Externals, offer_authenticity}
use sync_space.Transfer.Control.{Env}
use sync_space.Transfer.Nonces.{
  IsKnown, lifetime, use-IsKnown, first_use, fresh_nonces-IsKnown, use_authentication_nonce,
}
use sync_space.Transfer.Offers.{Receiver, receive_offer}

pub record Delivery : Type 0 where
  pub env : Env
  pub offer : Offer
  pub remote_address : String
  pub auth : PeerAuthentication

module _ (x : Externals) (p : Platform) where
  abbrev pub deliver : Receiver → Delivery → Outcome Transfer × Receiver
  deliver r d = receive_offer x p d.env r d.offer d.remote_address d.auth

  unfoldable pub deliver_all : Receiver → List Delivery → Receiver
  deliver_all r [] = r
  deliver_all r (d ∷ ds) = deliver_all (deliver r d).1 ds

  -- Every delivery is at a time up to a limit.
  abbrev pub Before : ℕ → List Delivery → Type 0
  Before limit [] = Unit
  Before limit (d ∷ ds) = (d.env.now ≤ limit) × Before limit ds

  -- What one offer does to the nonces.
  spent :
      (r : Receiver) (d : Delivery)
      → offer_authenticity x d.env.now d.offer d.auth ≡ none
      → (deliver r d).1.auth_nonces
        ≡ (use_authentication_nonce r.auth_nonces d.auth.nonce d.env.now).1
  unfolding receive_offer
  spent r d h = ground (arith, h)

  unspent :
      (r : Receiver) (d : Delivery) (e : TransferError)
      → offer_authenticity x d.env.now d.offer d.auth ≡ some e
      → (deliver r d) ≡ (err e, r)
  unfolding receive_offer
  unspent r d e h = ground (arith, h)

  nonces-receive_offer :
      (r : Receiver) (d : Delivery) (nonce : String) (at : ℕ)
      → d.env.now ≤ at + lifetime
      → IsKnown nonce at r.auth_nonces
      → IsKnown nonce at (deliver r d).1.auth_nonces
  nonces-receive_offer r d nonce at l k =
      let kept = use-IsKnown nonce at r.auth_nonces d.auth.nonce d.env.now l k in
      elim (Option-cases (offer_authenticity x d.env.now d.offer d.auth)) [
        | inr (e, refused) ↦
            subst (λ a. IsKnown nonce at a.1.auth_nonces) (sym (unspent r d e refused)) k
        | inl authentic ↦ subst (IsKnown nonce at) (sym (spent r d authentic)) kept
      ]

  deliver_all-IsKnown :
      (r : Receiver) (ds : List Delivery) (nonce : String) (at : ℕ)
      → Before (at + lifetime) ds
      → IsKnown nonce at r.auth_nonces
      → IsKnown nonce at (deliver_all r ds).auth_nonces
  unfolding deliver_all
  deliver_all-IsKnown r [] nonce at b k = k
  deliver_all-IsKnown r (d ∷ ds) nonce at b k =
      deliver_all-IsKnown (deliver r d).1 ds nonce at b.1 (nonces-receive_offer r d nonce at b.0 k)

  known-refused :
      (r : Receiver) (d : Delivery) (at : ℕ)
      → d.env.now ≤ at + lifetime
      → IsKnown d.auth.nonce at r.auth_nonces
      → (e : TransferError) × ((deliver r d).0 ≡ err e) × ((deliver r d).1.service ≡ r.service)
  unfolding receive_offer use_authentication_nonce
  known-refused r d at l (used, found, a) =
      let still = fresh_nonces-IsKnown d.auth.nonce at d.env.now used r.auth_nonces l a found in
      elim (Option-cases (offer_authenticity x d.env.now d.offer d.auth)) [
        | inr (e, refused) ↦ (e, ground (arith, refused), ground (arith, refused))
        | inl authentic ↦
            (unauthorized, ground (arith, authentic, still), ground (arith, authentic, still))
      ]

  no_transfer :
      (r : Receiver) (d : Delivery) (t : Transfer) (e : TransferError)
      → offer_authenticity x d.env.now d.offer d.auth ≡ some e
      → (deliver r d).0 ≢ ok t
  unfolding receive_offer
  no_transfer r d t e refused h = ground (arith, refused, h)

  accepted_unused :
      (r : Receiver) (d : Delivery) (t : Transfer)
      → offer_authenticity x d.env.now d.offer d.auth ≡ none
      → (deliver r d).0 ≡ ok t
      → (use_authentication_nonce r.auth_nonces d.auth.nonce d.env.now).0 ≡ true
  unfolding receive_offer
  accepted_unused r d t authentic h = ground (arith, authentic, h)

  -- Once an offer is answered with a transfer, no delivery under its nonce is answered with one or
  -- changes the transfers for five minutes, whatever other offers arrive in between.
  pub receive_offer-refuses_replay :
      (r : Receiver) (first : Delivery) (t : Transfer) (ds : List Delivery) (again : Delivery)
      → (deliver r first).0 ≡ ok t
      → Before (first.env.now + lifetime) ds
      → again.env.now ≤ first.env.now + lifetime
      → again.auth.nonce ≡ first.auth.nonce
      → let later = deliver_all (deliver r first).1 ds in
        (e : TransferError) × ((deliver later again).0 ≡ err e)
        × ((deliver later again).1.service ≡ later.service)
  receive_offer-refuses_replay r first t ds again h b l same =
      elim (Option-cases (offer_authenticity x first.env.now first.offer first.auth)) [
        | inr (e, refused) ↦ absurd (no_transfer r first t e refused h)
        | inl authentic ↦
            let known =
              subst (IsKnown first.auth.nonce first.env.now) (sym (spent r first authentic)) (
                first_use r.auth_nonces first.auth.nonce first.env.now
                  (accepted_unused r first t authentic h)) in
            let still =
              deliver_all-IsKnown (deliver r first).1 ds first.auth.nonce first.env.now b known in
            known-refused (deliver_all (deliver r first).1 ds) again first.env.now l (rw same still)
      ]
