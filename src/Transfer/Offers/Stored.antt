-- ===== src/Transfer/Offers/Stored.antt =====
-- What an accepted offer shows of its sender, and what is stored for it.
use sync_space.Base.{
  ℕ, String, true, false, none, some, List, [], ◌≡◌, ◌≢◌, arith, string_eq, str_eq_iff, All,
  Bool-cases, inl, inr, Option-cases,
}
use sync_space.Base.Int.{pos, int_eq, equal_int_iff}
use sync_space.Models.{Device}
use sync_space.Transfer.Models.{
  Transfer, Offer, PeerAuthentication, queued, inbound, ok, err, not_found, Outcome-cases,
}
use sync_space.Transfer.Store
use sync_space.Transfer.Paths.{Platform}
use sync_space.Transfer.Externals.{
  Externals, offer_authenticity, peer, is_at_address, valid_offer_signature,
}
use sync_space.Transfer.Control.{Service, Env, save}
use sync_space.Transfer.Nonces.{use_authentication_nonce}
use sync_space.Transfer.Offers.{
  Receiver, check_files, offered, offer_contents, receive_offer, store_offer,
}
use sync_space.Transfer.Offers.Checked.{IsAcceptable, AreDistinct, total_size, check_files_lem}

module _ (x : Externals) (p : Platform) where
  -- The sender is trusted, and signed the offer with the key of the pairing.
  pub record IsAuthentic (offer : Offer) (auth : PeerAuthentication) : Type 0 where
    pub trusted : x.is_trusted offer.device_id ≡ some true
    pub sender : auth.device_id ≡ offer.device_id
    pub key : String
    pub body : String
    pub shared : x.shared_key offer.device_id ≡ some key
    pub encoded : x.marshal offer ≡ some body
    pub signed : valid_offer_signature x key auth "POST" "/v1/transfers/offers" body ≡ true

  keyless :
      (now : ℕ) (offer : Offer) (auth : PeerAuthentication)
      → x.shared_key offer.device_id ≡ none
      → offer_authenticity x now offer auth ≢ none
  unfolding offer_authenticity
  keyless now offer auth m h = ground (arith, m, h)

  bodiless :
      (now : ℕ) (offer : Offer) (auth : PeerAuthentication)
      → x.marshal offer ≡ none
      → offer_authenticity x now offer auth ≢ none
  unfolding offer_authenticity
  bodiless now offer auth m h = ground (arith, m, h)

  offer_authenticity-IsAuthentic :
      (now : ℕ) (offer : Offer) (auth : PeerAuthentication)
      → offer_authenticity x now offer auth ≡ none
      → IsAuthentic offer auth
  unfolding offer_authenticity
  offer_authenticity-IsAuthentic now offer auth h =
      elim (Option-cases (x.shared_key offer.device_id)) [
        | inl missing ↦ absurd (keyless now offer auth missing h)
        | inr (key, shared) ↦ elim (Option-cases (x.marshal offer)) [
          | inl missing ↦ absurd (bodiless now offer auth missing h)
          | inr (body, encoded) ↦ record {
            trusted = ground (arith, h);
            sender = ground (arith, h, str_eq_iff auth.device_id offer.device_id);
            key = key;
            body = body;
            shared = shared;
            encoded = encoded;
            signed = ground (arith, h, shared, encoded);
          }
        ]
      ]

  offer_contents_lem :
      (now : ℕ) (peers : List Device) (offer : Offer) (remote_address : String) (t : Transfer)
      → offer_contents x p now peers offer remote_address ≡ ok t
      → (d : Device) × (peer peers offer.device_id ≡ some d)
        × (is_at_address x (some d) remote_address ≡ true)
        × (check_files x p offer.chunk_size [] (pos 0) offer.files ≡ ok offer.size)
        × (t ≡ offered x p now remote_address d offer)
  unfolding offer_contents
  offer_contents_lem now peers offer remote_address t h =
      elim (Option-cases (peer peers offer.device_id)) [
        | inl missing ↦ ground (arith, missing, h)
        | inr (d, found) ↦
            elim (Outcome-cases (check_files x p offer.chunk_size [] (pos 0) offer.files)) [
              | inl (e, refused) ↦ ground (arith, found, refused, h)
              | inr (total, passed) ↦ (
                d,
                found,
                ground (arith, found, passed, h),
                ground (arith, found, passed, h, equal_int_iff total offer.size),
                ground (arith, found, passed, h),
              )
            ]
      ]

  -- All that the handler has checked when it stores a transfer.
  pub record IsChecked (r : Receiver) (now : ℕ) (offer : Offer) (remote_address : String)
      (auth : PeerAuthentication) : Type 0 where
    pub authentic : IsAuthentic offer auth
    pub unused : (use_authentication_nonce r.auth_nonces auth.nonce now).0 ≡ true
    pub device : Device
    pub discovered : peer r.peers offer.device_id ≡ some device
    pub located : is_at_address x (some device) remote_address ≡ true
    pub acceptable : All (IsAcceptable x p offer.chunk_size) offer.files
    pub distinct : AreDistinct x p offer.files
    pub total : offer.size ≡ total_size (pos 0) offer.files

  save_new :
      (env : Env) (s : Service) (t stored : Transfer) (s' : Service)
      → Store.get_transfer env.get_fails s.tables t.id ≡ err not_found
      → store_offer x p env s t ≡ (ok stored, s')
      → (stored ≡ t) × (Store.save_transfer false s.tables t ≡ some s'.tables)
  unfolding save Store.save_transfer
  save_new env s t stored s' new h = elim (Bool-cases env.save_fails) [
    | inl lost ↦ ground (arith, new, lost, h)
    | inr saved ↦ (ground (arith, new, saved, h), ground (arith, new, saved, h))
  ]

  -- An offer that is answered with a transfer, of an id that the database did not have, comes from a
  -- trusted device, which signed it with the pairing's key under an unused nonce and is online at the
  -- address of the request; every path is safe, no two paths differ in case only, chunk counts and the
  -- total size agree; and the transfer that is saved, and answered with, waits for approval and has
  -- the offer's files.
  pub receive_offer_lem :
      (env : Env) (r r' : Receiver) (offer : Offer) (remote_address : String)
      (auth : PeerAuthentication) (t : Transfer)
      → Store.get_transfer env.get_fails r.service.tables offer.transfer_id ≡ err not_found
      → receive_offer x p env r offer remote_address auth ≡ (ok t, r')
      → IsChecked r env.now offer remote_address auth
        × (Store.save_transfer false r.service.tables t ≡ some r'.service.tables)
        × (t.id ≡ offer.transfer_id)
        × (t.status ≡ queued)
        × (t.direction ≡ inbound)
        × (t.approved ≡ false)
        × (t.files ≡ offer.files)
  unfolding receive_offer offered
  receive_offer_lem env r r' offer remote_address auth t new h =
      elim (Option-cases (offer_authenticity x env.now offer auth)) [
        | inr (e, refused) ↦ ground (arith, refused, h)
        | inl authentic ↦
            elim (Bool-cases (use_authentication_nonce r.auth_nonces auth.nonce env.now).0) [
              | inr replayed ↦ ground (arith, authentic, replayed, h)
              | inl unused ↦
                  elim (Outcome-cases (offer_contents x p env.now r.peers offer remote_address)) [
                    | inl (e, refused) ↦ ground (arith, authentic, unused, refused, h)
                    | inr (made, passed) ↦
                        let (device, found, at, files, is_made) =
                          offer_contents_lem env.now r.peers offer remote_address made passed in
                        let (good, differ, sum) =
                          check_files_lem x p offer.chunk_size offer.size offer.files files in
                        let (same, saved) =
                          save_new env r.service made t r'.service (ground (arith, is_made, new))
                            (ground (arith, authentic, unused, passed, h)) in
                        (
                          record {
                            authentic = offer_authenticity-IsAuthentic env.now offer auth authentic;
                            unused = unused;
                            device = device;
                            discovered = found;
                            located = at;
                            acceptable = good;
                            distinct = differ;
                            total = sum;
                          },
                          rw same saved,
                          ground (arith, same, is_made),
                          ground (arith, same, is_made),
                          ground (arith, same, is_made),
                          ground (arith, same, is_made),
                          ground (arith, same, is_made),
                        )
                  ]
            ]
      ]
