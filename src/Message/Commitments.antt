-- ===== src/Message/Commitments.antt =====
-- A commitment that the client writes is the one that the program settles.
use agon_protocol.Base.{
  ℕ, ◌+◌, ◌-◌, ◌^◌, ◌≤◌, ◌<◌, List, [], ◌∷◌, ◌++◌, none, ok, ◌≡◌, refl, sym, ap, ◌∙◌, length,
  length-append, drop, take, drop_past, take_exact, append-nil, arith, le→leb, ==_refl,
  invalid_commitment_message,
}
use agon_protocol.Base.Bytes.{
  byte_at, byte_at-drop, slice, eq_bytes_refl, le_bytes, from_le, length-le_bytes, from_le-le_bytes,
}
use agon_protocol.Base.Int.{ℤ}
use agon_protocol.Compact.{encode_bytes, read_varint_u64, read_varint_u32}
use agon_protocol.Compact.Encode.{encode_bytes_shape}
use agon_protocol.Compact.Decode.{read_varint_u64-encode_bytes, read_varint_u32-encode_bytes}
use agon_protocol.Message.Client.{
  BigNumber, CommitmentParams, chosen_amount, create_commitment_message,
}
use agon_protocol.Message.Program.{Commitment, parse_commitment_message, read_settler, cursor_at}
use agon_protocol.Message.Rounds.{Fits, magnitude, encode-Fits, magnitude-lt, at}

-- What the wire format has room for, with the amount that `chosen_amount` takes.
pub record CommitmentFits (p : CommitmentParams) (committed : ℤ) : Type 0 where
  pub chosen : chosen_amount p.committed_amount p.amount ≡ ok committed
  pub payer : Fits (2 ^ 32) p.payer_id
  pub payee : Fits (2 ^ 32) p.payee_id
  pub amount : Fits (2 ^ 64) committed
  pub token : p.token_id < 2 ^ 16
  pub domain : length p.message_domain ≡ 16

module _ (p : CommitmentParams) (committed : ℤ) where
  abbrev payer : List ℕ
  payer = encode_bytes (magnitude p.payer_id)

  abbrev payee : List ℕ
  payee = encode_bytes (magnitude p.payee_id)

  abbrev amount : List ℕ
  amount = encode_bytes (magnitude committed)

  abbrev token : List ℕ
  token = le_bytes 2 p.token_id

  abbrev pub message : List ℕ
  message = 0x01 ∷ 0x05 ∷ (p.message_domain ++ (0x00 ∷ (payer ++ (payee ++ (token ++ amount)))))

  abbrev pub commitment_of : Commitment
  commitment_of = record {
    payer_id = magnitude p.payer_id;
    payee_id = magnitude p.payee_id;
    token_id = p.token_id;
    committed_amount = magnitude committed;
    authorized_settler = none;
  }

  module _ (h : CommitmentFits p committed) where
    pub create-message : (bn : BigNumber) → create_commitment_message bn p ≡ ok message
    unfolding create_commitment_message
    create-message bn = rw (
      h.chosen,
      encode-Fits (2 ^ 32) p.payer_id h.payer,
      encode-Fits (2 ^ 32) p.payee_id h.payee,
      bn.fits p.token_id 2 (omega (arith, h.token)),
      encode-Fits (2 ^ 64) committed h.amount,
    )

    at_flags : drop 18 message ≡ 0x00 ∷ (payer ++ (payee ++ (token ++ amount)))
    at_flags = drop_past 2 18 message p.message_domain _ refl (omega (arith, h.domain))

    at_payer : drop 19 message ≡ payer ++ (payee ++ (token ++ amount))
    at_payer = drop_past 18 19 message (0x00 ∷ []) _ at_flags refl

    at_payee : drop (19 + length payer) message ≡ payee ++ (token ++ amount)
    at_payee = drop_past 19 _ message payer _ at_payer refl

    at_token : drop (19 + length payer + length payee) message ≡ token ++ amount
    at_token = drop_past (19 + length payer) _ message payee _ at_payee refl

    at_amount : drop (19 + length payer + length payee + 2) message ≡ amount
    at_amount =
        drop_past (19 + length payer + length payee) _ message token _ at_token
          (omega (arith, length-le_bytes 2 p.token_id))

    length-message : length message ≡ 21 + length payer + length payee + length amount
    length-message = omega (
      arith,
      length-append p.message_domain (0x00 ∷ (payer ++ (payee ++ (token ++ amount)))),
      length-append payer (payee ++ (token ++ amount)),
      length-append payee (token ++ amount),
      length-append token amount,
      length-le_bytes 2 p.token_id,
      h.domain,
    )

    long_enough : 24 ≤ length message
    long_enough =
        let payer-lt = magnitude-lt (2 ^ 32) p.payer_id h.payer in
        let payee-lt = magnitude-lt (2 ^ 32) p.payee_id h.payee in
        let amount-lt = magnitude-lt (2 ^ 64) committed h.amount in
        omega (
          arith,
          length-message,
          (encode_bytes_shape 9 (magnitude p.payer_id) (omega arith)).1,
          (encode_bytes_shape 9 (magnitude p.payee_id) (omega arith)).1,
          (encode_bytes_shape 9 (magnitude committed) (omega arith)).1,
        )

    slice-domain : slice 2 18 message ≡ p.message_domain
    slice-domain = take_exact 16 p.message_domain _ h.domain

    byte_at-flags : byte_at message 18 ≡ 0
    byte_at-flags = byte_at-drop 18 _ message _ at_flags

    -- The offset behind the two ids.
    abbrev ids_end : ℕ
    ids_end = 19 + length payer + length payee

    read_payer :
        read_varint_u32 invalid_commitment_message (cursor_at message 19)
        ≡ ok (magnitude p.payer_id, at (19 + length payer) (payee ++ (token ++ amount)))
    read_payer =
        ap (λ (t : List ℕ). read_varint_u32 invalid_commitment_message (at 19 t)) at_payer
        ∙ read_varint_u32-encode_bytes (magnitude p.payer_id) 19 _ _
            (magnitude-lt (2 ^ 32) p.payer_id h.payer)

    read_payee :
        read_varint_u32 invalid_commitment_message
          (at (19 + length payer) (payee ++ (token ++ amount)))
        ≡ ok (magnitude p.payee_id, at ids_end (token ++ amount))
    read_payee =
        read_varint_u32-encode_bytes (magnitude p.payee_id) (19 + length payer) _ _
          (magnitude-lt (2 ^ 32) p.payee_id h.payee)

    slice-token : from_le (slice ids_end (ids_end + 2) message) ≡ p.token_id
    slice-token =
        ap (λ (n : ℕ). from_le (take n (drop ids_end message))) two
        ∙ ap (λ (t : List ℕ). from_le (take 2 t)) at_token
        ∙ ap from_le (take_exact 2 token _ (length-le_bytes 2 p.token_id))
        ∙ from_le-le_bytes 2 p.token_id h.token
      where
        two : ids_end + 2 - ids_end ≡ 2
        two = omega arith

    read_amount :
        read_varint_u64 invalid_commitment_message (cursor_at message (ids_end + 2))
        ≡ ok (magnitude committed, at (length message) [])
    read_amount =
        ap (λ (t : List ℕ). read_varint_u64 invalid_commitment_message (at (ids_end + 2) t))
          (at_amount ∙ sym (append-nil amount))
        ∙ read_varint_u64-encode_bytes (magnitude committed) (ids_end + 2) [] _
            (magnitude-lt (2 ^ 64) committed h.amount)
        ∙ ap (λ (o : ℕ). ok (magnitude committed, at o [])) (omega (arith, length-message))

    pub parse-message : parse_commitment_message message p.message_domain ≡ ok commitment_of
    unfolding parse_commitment_message read_settler
    parse-message = rw (
      le→leb 24 (length message) long_enough,
      slice-domain,
      eq_bytes_refl p.message_domain,
      byte_at-flags,
      read_payer,
      read_payee,
      le→leb (ids_end + 2) (length message) (omega (arith, length-message)),
      slice-token,
      read_amount,
      ==_refl (length message),
    )

-- A commitment within the limits of the wire format (16 bytes of domain, 32-bit ids, a 16-bit token,
-- a 64-bit amount, given as `committedAmount` or as `amount`) is written without an error, and
-- `parse_commitment_message` reads from the bytes the same payer, payee, token and amount, with no
-- authorized settler.
pub parse_commitment_message-create_commitment_message :
    (bn : BigNumber) (p : CommitmentParams) (committed : ℤ)
    → CommitmentFits p committed
    → (msg : List ℕ) × (create_commitment_message bn p ≡ ok msg)
      × (parse_commitment_message msg p.message_domain ≡ ok (commitment_of p committed))
parse_commitment_message-create_commitment_message bn p committed h =
    (message p committed, create-message p committed h bn, parse-message p committed h)
